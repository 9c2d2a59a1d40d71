-- ===== src/AdminContests.antt =====
-- frontend/src/app/admin/contests/page.tsx: the page on which an administrator manages contests. Its
-- state variables, `resetForm`, `handleEdit` and the payload are written out in this file with the
-- same text as in frontend/src/app/manager/contests/page.tsx: the model takes them from there. The
-- record of a contest is the one of managers too; this page does not read its `approval_status`.
pub mod Handlers
pub mod Refinement
pub mod Removal
mod Tests
use jjudge.Prelude.{ℕ, List, Option, Text}
use jjudge.Async.{Task}
use jjudge.ContestManager.{Contest, Problem, ContestProblem, Manager, Payload, Addition}

pub data Request : Type 0 where
  list_contests list_problems : Text → Request
  post_contest : Text → Payload → Request
  put_contest : Text → ℕ → Payload → Request
  delete_contest : Text → ℕ → Request
  get_contest_problems : Text → ℕ → Request
  post_contest_problem : Text → ℕ → Addition → Request
  delete_contest_problem post_rejudge : Text → ℕ → ℕ → Request

-- `none` where the promise is rejected. A list may be missing.
abbrev pub Answer : Request → Type 0
Answer (list_contests t) = Option (Option (List Contest))
Answer (list_problems t) = Option (Option (List Problem))
Answer (post_contest t p) = Option (Unit {0})
Answer (put_contest t i p) = Option (Unit {0})
Answer (delete_contest t i) = Option (Unit {0})
Answer (get_contest_problems t i) = Option (Option (List ContestProblem))
Answer (post_contest_problem t i a) = Option (Unit {0})
Answer (delete_contest_problem t i j) = Option (Unit {0})
Answer (post_rejudge t i j) = Option (Unit {0})

abbrev pub Handler : Type 0
Handler = Task Request Answer Manager (Unit {0})
