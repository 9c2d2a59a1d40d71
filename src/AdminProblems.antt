-- ===== src/AdminProblems.antt =====
-- frontend/src/app/admin/problems/page.tsx: the page on which an administrator edits problems. Its
-- state variables, the operations on the form and the form data are written out in this file with the
-- same text as in frontend/src/app/manager/problems/page.tsx, lines 26 to 129, 152 to 166 and 209 to
-- 258: the model takes them from there. What differs is here: the requests, the list, and the deletion.
pub mod Handlers
pub mod Events
pub mod Refinement
pub mod Deletion
pub mod Reachable
mod Tests
use jjudge.Prelude.{ℕ, Bool, List, [], ◌∷◌, Option, none, some, Text}
use jjudge.Async.{Task}
use jjudge.ProblemEditor.{Problem, Editor, FormData}

-- The list: an array, or an object that has one under one of three keys, or anything else.
pub data Body : Type 0 where
  array : List Problem → Body
  wrapped : Option (List Problem) → Option (List Problem) → Option (List Problem) → Body
  other : Body

-- The fields `problems`, `data` and `items`, of which the first that is a list counts.
unfoldable pub normalize_problems : Body → List Problem
normalize_problems (array ps) = ps
normalize_problems (wrapped (some ps) _ _) = ps
normalize_problems (wrapped none (some ps) _) = ps
normalize_problems (wrapped none none (some ps)) = ps
normalize_problems (wrapped none none none) = []
normalize_problems other = []

pub data Request : Type 0 where
  list_problems : Text → Request
  get_problem delete_problem : Text → ℕ → Request
  post_problem post_zip : Text → FormData → Request
  put_problem put_zip : Text → ℕ → FormData → Request

-- `none` where the promise is rejected.
abbrev pub Answer : Request → Type 0
Answer (list_problems t) = Option Body
Answer (get_problem t i) = Option (Option Problem)
Answer (delete_problem t i) = Option (Unit {0})
Answer (post_problem t f) = Option (Unit {0})
Answer (post_zip t f) = Option (Unit {0})
Answer (put_problem t i f) = Option (Unit {0})
Answer (put_zip t i f) = Option (Unit {0})

abbrev pub Handler : Type 0
Handler = Task Request Answer Editor (Unit {0})
