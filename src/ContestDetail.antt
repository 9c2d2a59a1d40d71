-- ===== src/ContestDetail.antt =====
-- frontend/src/app/manager/contests/[id]/page.tsx: the page of one contest of a manager. `iso` is
-- `new Date(text).toISOString()`, `none` where that throws.
pub mod Update
mod Tests
use jjudge.Prelude.{
  ℕ, Bool, true, false, List, [], ◌∷◌, Option, none, some, or_else, Text, lit, take, value,
}
use jjudge.Async.{Task, ret, done, set, call, ◌>>=◌, ◌>>◌}

pub record Problem : Type 0 where
  pub id : ℕ
  pub title : Option Text
  pub approval_status : Option Text

pub record ContestProblem : Type 0 where
  pub contest_id : ℕ
  pub problem_id : ℕ
  pub ordinal : ℕ
  pub max_points : ℕ
  pub problem : Option Problem

pub record Contest : Type 0 where
  pub id : ℕ
  pub title : Text
  pub description : Option Text
  pub start_time : Text
  pub end_time : Text
  pub scoring_type : Text
  pub visibility : Text
  pub approval_status : Text
  pub owner_id : Option ℕ
  pub problems : Option (List ContestProblem)

-- The page's `useState` variables.
pub record Detail : Type 0 where
  pub contest : Option Contest
  pub contest_problems : List ContestProblem
  pub all_problems : List Problem
  pub loading : Bool
  pub error : Option Text
  pub status : Option Text
  pub editing : Bool
  pub title : Text
  pub description : Text
  pub start_time : Text
  pub end_time : Text
  pub scoring_type : Text
  pub visibility : Text
  pub add_problem_id : Text
  pub add_ordinal : ℕ
  pub add_max_points : ℕ
  pub problem_status : Option Text

pub record Payload : Type 0 where
  pub title : Text
  pub description : Text
  pub start_time : Text
  pub end_time : Text
  pub scoring_type : Text
  pub visibility : Text

pub data Request : Type 0 where
  get_contest get_contest_problems : Text → ℕ → Request
  list_problems : Text → Request
  put_contest : Text → ℕ → Payload → Request
  post_contest_problem : Text → ℕ → ℕ → ℕ → ℕ → Request
  delete_contest_problem : Text → ℕ → ℕ → Request

-- `none` where the promise is rejected; a list may be missing.
abbrev pub Answer : Request → Type 0
Answer (get_contest t i) = Option Contest
Answer (get_contest_problems t i) = Option (Option (List ContestProblem))
Answer (list_problems t) = Option (Option (List Problem))
Answer (put_contest t i p) = Option (Unit {0})
Answer (post_contest_problem t i j ordinal points) = Option (Unit {0})
Answer (delete_contest_problem t i j) = Option (Unit {0})

abbrev pub Handler : Type 0
Handler = Task Request Answer Detail (Unit {0})

unfoldable pub initial : Detail
initial = record {
  contest = none;
  contest_problems = [];
  all_problems = [];
  loading = true;
  error = none;
  status = none;
  editing = false;
  title = [];
  description = [];
  start_time = [];
  end_time = [];
  scoring_type = lit "icpc";
  visibility = lit "public";
  add_problem_id = [];
  add_ordinal = 0;
  add_max_points = 100;
  problem_status = none;
}

-- What `loadContest` sets from the answer.
unfoldable pub fill : Contest → Detail → Detail
fill c s = record s {
  contest = some c;
  title = c.title;
  description = or_else c.description [];
  start_time = take 16 c.start_time;
  end_time = take 16 c.end_time;
  scoring_type = c.scoring_type;
  visibility = c.visibility;
}

unfoldable pub found : Option Contest → Handler
unfolding fill
found none = set (λ s. record s { error = some (lit "Failed to load contest.") })
found (some c) = set (fill c)

-- `contestId` is `none` where the address has no number, or 0.
unfoldable pub load_contest : Option Text → Option ℕ → Handler
unfolding found
load_contest (some token) (some i) = do
  set (λ s. record s { loading = true })
  set (λ s. record s { error = none })
  found (← call (get_contest token i))
  set (λ s. record s { loading = false })
load_contest _ _ = done

unfoldable pub shown_problems : Option (Option (List ContestProblem)) → Handler
shown_problems none = set (λ s. record s { contest_problems = [] })
shown_problems (some items) = set (λ s. record s { contest_problems = or_else items [] })

unfoldable pub load_contest_problems : Option Text → Option ℕ → Handler
unfolding shown_problems
load_contest_problems (some token) (some i) = call (get_contest_problems token i) >>= shown_problems
load_contest_problems _ _ = done

known_problems : Option (Option (List Problem)) → Handler
known_problems none = done
known_problems (some items) = set (λ s. record s { all_problems = or_else items [] })

unfoldable pub load_all_problems : Option Text → Handler
unfolding known_problems
load_all_problems none = done
load_all_problems (some token) = call (list_problems token) >>= known_problems

payload_from : Detail → Option Text → Option Text → Option Payload
payload_from s (some start_time) (some end_time) = some (record {
  title = s.title;
  description = s.description;
  start_time = start_time;
  end_time = end_time;
  scoring_type = s.scoring_type;
  visibility = s.visibility;
})
payload_from s _ _ = none

unfoldable pub payload : (Text → Option Text) → Detail → Option Payload
unfolding payload_from
payload iso s = payload_from s (iso s.start_time) (iso s.end_time)

unfoldable pub updated : Text → ℕ → Option (Unit {0}) → Handler
unfolding load_contest
updated token i none = set (λ s. record s { error = some (lit "Failed to update contest.") })
updated token i (some _) = do
  set (λ s. record s { status = some (lit "Contest updated.") })
  set (λ s. record s { editing = false })
  load_contest (some token) (some i)

-- The payload is made inside of the `try`.
unfoldable pub send : Text → ℕ → Option Payload → Handler
unfolding updated
send token i none = set (λ s. record s { error = some (lit "Failed to update contest.") })
send token i (some p) = call (put_contest token i p) >>= updated token i

unfoldable pub handle_update : (Text → Option Text) → Option Text → ℕ → Detail → Handler
unfolding send
handle_update iso none i s = done
handle_update iso (some token) i s = do
  set (λ s. record s { status = none })
  set (λ s. record s { error = none })
  send token i (payload iso s)

added : Text → ℕ → Option (Unit {0}) → Handler
unfolding load_contest_problems
added token i none = set (λ s. record s { problem_status = some (lit "Failed to add problem.") })
added token i (some _) = do
  set (λ s. record s { problem_status = some (lit "Problem added.") })
  set (λ s. record s { add_problem_id = [] })
  load_contest_problems (some token) (some i)

unfoldable pub handle_add_problem : Option Text → ℕ → Detail → Handler
unfolding added
handle_add_problem none i s = done
handle_add_problem (some token) i s = do
  set (λ s. record s { problem_status = none })
  added token i
      (← call
        (post_contest_problem token i (value s.add_problem_id) s.add_ordinal s.add_max_points))

removed : Text → ℕ → Option (Unit {0}) → Handler
unfolding load_contest_problems
removed token i none =
    set (λ s. record s { problem_status = some (lit "Failed to remove problem.") })
removed token i (some _) = load_contest_problems (some token) (some i)

unfoldable pub handle_remove_problem : Option Text → ℕ → ℕ → Handler
unfolding removed
handle_remove_problem none i j = done
handle_remove_problem (some token) i j = call (delete_contest_problem token i j) >>= removed token i

-- What is rendered: the whole page, with its forms, only where there is no error.
pub data View : Type 0 where
  log_in loading : View
  message : Text → View
  page : Contest → View

loaded_view : Option Text → Option Contest → View
loaded_view (some e) c = message e
loaded_view none none = message (lit "Contest not found.")
loaded_view none (some c) = page c

loading_view : Bool → Option Text → Option Contest → View
unfolding loaded_view
loading_view true e c = loading
loading_view false e c = loaded_view e c

unfoldable pub view : Option Text → Detail → View
unfolding loading_view
view none s = log_in
view (some token) s = loading_view s.loading s.error s.contest
