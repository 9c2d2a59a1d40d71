-- ===== src/Contest/Tests.antt =====
-- The page of a contest at concrete times.
use jjudge.Prelude.{
  length, ℕ, ◌-◌, ◌≤◌, ◌<◌, ◌≡◌, ◌⊎◌, ◌↔◌, refl, true, List, [], ◌∷◌, map, none, some, or_else,
  arith, All, lit, to_string,
}
use mathlib.Core.List.{Perm}
use jjudge.Prelude.Sorting.{IsSortedBy}
use jjudge.Contest.{
  ContestProblem, Contest, to_parts, ordinal_label, duration_label, row, nav_links, contest_body,
}
use jjudge.Contest.Labels.{ordinal_label-injective, IsLetter}
use jjudge.Contest.Phases.{contest_body_lem}

abbrev contest : Contest
contest = record {
  id = 3;
  title = lit "Round 3";
  description = none;
  start_ms = 10_000_000;
  end_ms = 17_200_000;
  scoring_type = lit "icpc";
  visibility = lit "public";
  problems = some (
      record { contest_id = 3; problem_id = 8; ordinal = 1; max_points = 100; problem = none }
      ∷ record { contest_id = 3; problem_id = 5; ordinal = 0; max_points = 100; problem = none }
      ∷ []);
}

ordinal_label_test : (ordinal_label 1 ≡ lit "B") × (ordinal_label 27 ≡ lit "AB")
unfolding ordinal_label lit
ordinal_label_test = (refl, refl)

duration_label_test : duration_label 0 5_430_000 ≡ lit "1h 31m"
unfolding duration_label lit to_string
duration_label_test = refl

ordinal_label-injective_example :
    (length (ordinal_label 26) ≡ 2)
    × All IsLetter (ordinal_label 26)
    × (ordinal_label 26 ≡ ordinal_label 0 → ◌≡◌ {A = ℕ} 26 0)
ordinal_label-injective_example = ordinal_label-injective 26 0 (omega arith) (omega arith)

contest_body_lem_example :
    let v = contest_body contest 12_000_000 in
    (12_000_000 < contest.start_ms
      → (v.rows ≡ [])
        × (v.links ≡ [])
        × (v.countdown ≡ some (to_parts (contest.start_ms - 12_000_000))))
    × (contest.start_ms ≤ 12_000_000
        → (ps : List ContestProblem) × Perm ps (or_else contest.problems [])
          × IsSortedBy (λ cp. cp.ordinal) ps
          × (v.rows ≡ map (row contest) ps)
          × (v.links ≡ nav_links contest))
    × ((v.register_button ≡ true)
        ↔ ((12_000_000 < contest.start_ms) ⊎ (12_000_000 ≤ contest.end_ms)))
contest_body_lem_example = contest_body_lem contest 12_000_000
