-- ===== src/Submissions/Mine/Order.antt =====
-- frontend/src/app/problems/[id]/submissions/mine/page.tsx: the order of the list.
use mathlib.Core.List.{Perm}
use jjudge.Prelude.{◌≤◌, List, [], Option, or_else, leb, arith}
use jjudge.Prelude.Sorting.{IsSorted, sort_with-perm, sort_with-IsSorted}
use jjudge.Submissions.{Submission}
use jjudge.Submissions.Mine.{created_at, sorted_submissions}

-- The page shows the submissions that it has, each one once, and none of them before a later one; one
-- with no time counts as the oldest.
pub sorted_submissions_lem :
    (xs : Option (List Submission))
    → Perm (sorted_submissions xs) (or_else xs [])
      × IsSorted (λ a b. created_at b ≤ created_at a) (sorted_submissions xs)
unfolding sorted_submissions
sorted_submissions_lem xs = (
  sort_with-perm (λ a b. leb (created_at b) (created_at a)) (or_else xs []),
  sort_with-IsSorted (λ a b. leb (created_at b) (created_at a)) (λ a b. created_at b ≤ created_at a)
      (λ a b e. ground arith) (λ a b e. ground arith) (λ a b c h k. omega arith) (or_else xs []),
)
