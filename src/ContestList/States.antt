-- ===== src/ContestList/States.antt =====
-- The state of a contest in the list, and on its own page.
use jjudge.Prelude.{ℕ, ◌≡◌, refl, Bool-cases, inl, inr, ltb, leb, lit, to_upper_case}
use jjudge.Contest.{
  Contest, get_state, contest_body, layout_for, upcoming_layout, active_layout, ended_layout,
}
use jjudge.ContestList.{get_status, contest_row}

-- At any time the list and the page of a contest give it the same state, the list in capital letters.
pub contest_row-contest_body :
    (now : ℕ) (c : Contest) → (contest_row now c).status ≡ to_upper_case (contest_body c now).badge
unfolding contest_row get_status contest_body get_state layout_for upcoming_layout active_layout
    ended_layout to_upper_case lit
contest_row-contest_body now c = elim (Bool-cases (ltb now c.start_ms)) [
  | inl e ↦ rw e refl
  | inr e ↦ elim (Bool-cases (leb now c.end_ms)) [
    | inl f ↦ rw e (rw f refl)
    | inr f ↦ rw e (rw f refl)
  ]
]
