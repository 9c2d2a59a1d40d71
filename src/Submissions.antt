-- ===== src/Submissions.antt =====
-- frontend/src/components/submission-detail.tsx and frontend/src/app/problems/[id]/submissions/mine/
-- page.tsx: a submission, or the list of one's own, that is asked for again until it is judged.
pub mod Format
pub mod Results
pub mod Polling
pub mod Detail
pub mod Mine
mod Tests
use jjudge.Prelude.{ℕ, Bool, Option, none, some, Text, lit, text_eq, to_upper_case, ◌||◌, false}

-- `created_ms` is the time that `new Date(created_at).getTime()` reads. The results of single
-- testcases and the code are separate arguments of what shows them.
pub record Submission : Type 0 where
  pub id : ℕ
  pub problem_id : ℕ
  pub user_id : Option ℕ
  pub username : Option Text
  pub language : Option Text
  pub verdict : Option Text
  pub score : Option ℕ
  pub cpu_time : Option ℕ
  pub memory : Option ℕ
  pub message : Option Text
  pub tests_passed : Option ℕ
  pub tests_total : Option ℕ
  pub created_ms : Option ℕ

unfoldable pub is_pending : Option Text → Bool
is_pending none = false
is_pending (some v) =
    text_eq (to_upper_case v) (lit "PENDING") || text_eq (to_upper_case v) (lit "JUDGING")
