-- ===== src/ContestManager.antt =====
-- frontend/src/app/manager/contests/page.tsx: the page on which a manager plans contests, its state
-- and what it may ask of the server.
pub mod Handlers
pub mod Submit
pub mod Problems
mod Tests
use jjudge.Prelude.{ℕ, Bool, List, Option, Text}
use jjudge.Async.{Task}

-- Times are texts such as "2026-01-31T10:00:00Z".
pub record Contest : Type 0 where
  pub id : ℕ
  pub title : Text
  pub description : Option Text
  pub start_time : Text
  pub end_time : Text
  pub scoring_type : Text
  pub visibility : Text
  pub approval_status : Text

pub record Problem : Type 0 where
  pub id : ℕ
  pub title : Option Text

pub record ContestProblem : Type 0 where
  pub contest_id : ℕ
  pub problem_id : ℕ
  pub ordinal : ℕ
  pub max_points : ℕ
  pub problem : Option Problem

-- The page's `useState` variables.
pub record Manager : Type 0 where
  pub contests : List Contest
  pub loading : Bool
  pub error : Option Text
  pub status : Option Text
  pub editing_id : Option ℕ
  pub title : Text
  pub description : Text
  pub start_time : Text
  pub end_time : Text
  pub scoring_type : Text
  pub visibility : Text
  pub managing_contest_id : Option ℕ
  pub contest_problems : List ContestProblem
  pub all_problems : List Problem
  pub add_problem_id : Text
  pub add_ordinal : ℕ
  pub add_max_points : ℕ
  pub problem_status : Option Text

-- The body of a request that saves a contest.
pub record Payload : Type 0 where
  pub title : Text
  pub description : Text
  pub start_time : Text
  pub end_time : Text
  pub scoring_type : Text
  pub visibility : Text

-- The body of a request that adds a problem to a contest.
pub record Addition : Type 0 where
  pub problem_id : ℕ
  pub ordinal : ℕ
  pub max_points : ℕ

pub data Request : Type 0 where
  list_contests list_problems : Text → Request
  post_contest : Text → Payload → Request
  put_contest : Text → ℕ → Payload → Request
  get_contest_problems : Text → ℕ → Request
  post_contest_problem : Text → ℕ → Addition → Request
  delete_contest_problem : Text → ℕ → ℕ → Request

-- What the promise of a request gives: `none` where it is rejected. A list may be missing.
abbrev pub Answer : Request → Type 0
Answer (list_contests t) = Option (Option (List Contest))
Answer (list_problems t) = Option (Option (List Problem))
Answer (post_contest t p) = Option (Unit {0})
Answer (put_contest t i p) = Option (Unit {0})
Answer (get_contest_problems t i) = Option (Option (List ContestProblem))
Answer (post_contest_problem t i a) = Option (Unit {0})
Answer (delete_contest_problem t i j) = Option (Unit {0})

abbrev pub Handler : Type 0
Handler = Task Request Answer Manager (Unit {0})
