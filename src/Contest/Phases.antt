-- ===== src/Contest/Phases.antt =====
-- frontend/src/app/contests/[id]/contest-body.tsx: what is shown when.
use mathlib.Core.List.{Perm}
use jjudge.Prelude.{
  ℕ, ◌-◌, ◌≤◌, ◌<◌, ◌≡◌, ◌⊎◌, ◌↔◌, refl, true, List, [], map, some, or_else, arith, inl, inr,
}
use jjudge.Prelude.Sorting.{sort_by, sort_by-perm, IsSortedBy, sort_by-IsSortedBy}
use jjudge.Contest.{
  to_parts, ContestProblem, Contest, ContestState, upcoming, active, ended, get_state, row,
  nav_links, layout_for, sorted_problems, contest_body,
}

abbrev pub rank : ContestState → ℕ
rank upcoming = 0
rank active = 1
rank ended = 2

-- As time goes on a contest never goes back to an earlier state.
pub get_state_mono :
    (start_ms end_ms now later : ℕ)
    → now ≤ later
    → rank (get_state start_ms end_ms now) ≤ rank (get_state start_ms end_ms later)
unfolding get_state
get_state_mono start_ms end_ms now later h = ground arith

-- The state by the clock.
get_state_cases :
    (c : Contest) (now : ℕ)
    → let s = get_state c.start_ms c.end_ms now in
      (now < c.start_ms → s ≡ upcoming)
      × (c.start_ms ≤ now → now ≤ c.end_ms → s ≡ active)
      × (c.start_ms ≤ now → c.end_ms < now → s ≡ ended)
unfolding get_state
get_state_cases c now = (λ h. ground arith, λ h k. ground arith, λ h k. ground arith)

contest_body-at :
    (c : Contest) (now : ℕ) (s : ContestState)
    → get_state c.start_ms c.end_ms now ≡ s
    → contest_body c now ≡ layout_for s c (sorted_problems c) now
unfolding contest_body
contest_body-at c now s e = rw e

started :
    (c : Contest) (now : ℕ)
    → c.start_ms ≤ now
    → (get_state c.start_ms c.end_ms now ≡ active) ⊎ (get_state c.start_ms c.end_ms now ≡ ended)
unfolding get_state
started c now h = ground arith

register_button_iff :
    (c : Contest) (now : ℕ)
    → ((contest_body c now).register_button ≡ true) ↔ ((now < c.start_ms) ⊎ (now ≤ c.end_ms))
unfolding contest_body get_state
register_button_iff c now = (λ h. ground arith, λ h. ground arith)

-- Before its start a contest shows neither a problem nor a link to its leaderboard or submissions,
-- and counts down to the start; from its start on it shows each of its problems once, in the order
-- of their ordinals, and both links. The registration button is there until the end.
pub contest_body_lem :
    (c : Contest) (now : ℕ)
    → let v = contest_body c now in
      (now < c.start_ms
        → (v.rows ≡ []) × (v.links ≡ []) × (v.countdown ≡ some (to_parts (c.start_ms - now))))
      × (c.start_ms ≤ now
          → (ps : List ContestProblem) × Perm ps (or_else c.problems [])
            × IsSortedBy (λ cp. cp.ordinal) ps
            × (v.rows ≡ map (row c) ps)
            × (v.links ≡ nav_links c))
      × ((v.register_button ≡ true) ↔ ((now < c.start_ms) ⊎ (now ≤ c.end_ms)))
unfolding layout_for sorted_problems
contest_body_lem c now = (
  λ h. rw (contest_body-at c now upcoming ((get_state_cases c now).0 h)) (refl, refl, refl),
  λ h.
      let ps = sort_by (λ cp. cp.ordinal) (or_else c.problems []) in
      (
        ps,
        sort_by-perm (λ cp. cp.ordinal) (or_else c.problems []),
        sort_by-IsSortedBy (λ cp. cp.ordinal) (or_else c.problems []),
        elim (started c now h) [
          | inl e ↦ rw (contest_body-at c now active e)
          | inr e ↦ rw (contest_body-at c now ended e)
        ],
        elim (started c now h) [
          | inl e ↦ rw (contest_body-at c now active e)
          | inr e ↦ rw (contest_body-at c now ended e)
        ],
      ),
  register_button_iff c now,
)
