-- ===== src/ContestManager/Handlers.antt =====
-- frontend/src/app/manager/contests/page.tsx: the handlers, over the state and the token of the
-- render that they close over. `iso` is `new Date(text).toISOString()`, `none` where that throws.
use jjudge.Prelude.{
  ℕ, Bool, true, false, List, [], Option, none, some, or_else, Text, lit, take, value,
}
use jjudge.Async.{◌>>=◌, ◌>>◌, done, set, call}
use jjudge.ContestManager.{
  Contest, Problem, ContestProblem, Manager, Payload, Addition, Request, list_contests,
  list_problems, post_contest, put_contest, get_contest_problems, post_contest_problem,
  delete_contest_problem, Handler,
}

-- `auth.token`, where it is neither null nor empty.
abbrev pub AuthToken : Type 0
AuthToken = Option Text

unfoldable pub initial : Manager
initial = record {
  contests = [];
  loading = false;
  error = none;
  status = none;
  editing_id = none;
  title = lit "New Contest";
  description = [];
  start_time = [];
  end_time = [];
  scoring_type = lit "icpc";
  visibility = lit "public";
  managing_contest_id = none;
  contest_problems = [];
  all_problems = [];
  add_problem_id = [];
  add_ordinal = 0;
  add_max_points = 100;
  problem_status = none;
}

set_error : Option Text → Handler
set_error e = set (λ s. record s { error = e })

set_status : Option Text → Handler
set_status e = set (λ s. record s { status = e })

set_problem_status : Option Text → Handler
set_problem_status e = set (λ s. record s { problem_status = e })

set_loading : Bool → Handler
set_loading b = set (λ s. record s { loading = b })

unfoldable pub listed : Option (Option (List Contest)) → Handler
unfolding set_error
listed none = set_error (some (lit "Failed to load contests."))
listed (some items) = set (λ s. record s { contests = or_else items [] })

unfoldable pub load_contests : AuthToken → Handler
unfolding set_loading set_error listed
load_contests none = done
load_contests (some token) = do
  set_loading true
  set_error none
  listed (← call (list_contests token))
  set_loading false

-- A failure is ignored.
unfoldable pub known_problems : Option (Option (List Problem)) → Handler
known_problems none = done
known_problems (some items) = set (λ s. record s { all_problems = or_else items [] })

unfoldable pub load_all_problems : AuthToken → Handler
unfolding known_problems
load_all_problems none = done
load_all_problems (some token) = call (list_problems token) >>= known_problems

unfoldable pub reset_form : Manager → Manager
reset_form s = record s {
  editing_id = none;
  title = lit "New Contest";
  description = [];
  start_time = [];
  end_time = [];
  scoring_type = lit "icpc";
  visibility = lit "public";
  status = none;
  error = none;
}

-- `handleEdit`: the times lose all from the seconds on.
unfoldable pub handle_edit : Contest → Manager → Manager
handle_edit c s = record s {
  editing_id = some c.id;
  title = c.title;
  description = or_else c.description [];
  start_time = take 16 c.start_time;
  end_time = take 16 c.end_time;
  scoring_type = c.scoring_type;
  visibility = c.visibility;
  status = none;
  error = none;
}

module _ (iso : Text → Option Text) where
  unfoldable pub payload_from : Manager → Option Text → Option Text → Option Payload
  payload_from s (some start_time) (some end_time) = some (record {
    title = s.title;
    description = s.description;
    start_time = start_time;
    end_time = end_time;
    scoring_type = s.scoring_type;
    visibility = s.visibility;
  })
  payload_from s _ _ = none

  unfoldable pub payload : Manager → Option Payload
  unfolding payload_from
  payload s = payload_from s (iso s.start_time) (iso s.end_time)

-- The request that saves, and the message for its success.
unfoldable pub save_request : Text → Option ℕ → Payload → Request
save_request token none p = post_contest token p
save_request token (some i) p = put_contest token i p

unfoldable pub saved_status : Option ℕ → Text
saved_status none = lit "Contest created. It will be reviewed by an admin before going public."
saved_status (some i) = lit "Contest updated."

unfoldable pub after_save : AuthToken → Option ℕ → Option (Unit {0}) → Handler
unfolding set_status set_error reset_form load_contests saved_status
after_save token editing_id none = set_error (some (lit "Failed to save contest."))
after_save token editing_id (some _) = do
  set_status (some (saved_status editing_id))
  set reset_form
  load_contests token

unfoldable pub save : Text → Option ℕ → Payload → Handler
unfolding after_save
save token none p = call (post_contest token p) >>= after_save (some token) none
save token (some i) p = call (put_contest token i p) >>= after_save (some token) (some i)

-- The payload is made outside of the `try`: where a time cannot be read, the exception ends the
-- handler.
unfoldable pub send : Text → Option ℕ → Option Payload → Handler
unfolding save
send token editing_id none = done
send token editing_id (some p) = save token editing_id p

unfoldable pub handle_submit : (Text → Option Text) → AuthToken → Manager → Handler
unfolding set_status set_error send
handle_submit iso none s = done
handle_submit iso (some token) s = do
  set_status none
  set_error none
  send token s.editing_id (payload iso s)

unfoldable pub shown_problems : Option (Option (List ContestProblem)) → Handler
shown_problems none = set (λ s. record s { contest_problems = [] })
shown_problems (some items) = set (λ s. record s { contest_problems = or_else items [] })

unfoldable pub load_contest_problems : AuthToken → ℕ → Handler
unfolding shown_problems
load_contest_problems none contest_id = done
load_contest_problems (some token) contest_id =
    call (get_contest_problems token contest_id) >>= shown_problems

unfoldable pub open_problem_panel : AuthToken → ℕ → Handler
unfolding set_problem_status load_contest_problems
open_problem_panel token contest_id = do
  set (λ s. record s { managing_contest_id = some contest_id })
  set_problem_status none
  load_contest_problems token contest_id

-- The chosen problem is the text of its id, or empty.
unfoldable pub addition : Manager → Addition
addition s = record {
  problem_id = value s.add_problem_id;
  ordinal = s.add_ordinal;
  max_points = s.add_max_points;
}

unfoldable pub after_add : AuthToken → ℕ → Option (Unit {0}) → Handler
unfolding set_problem_status load_contest_problems
after_add token contest_id none = set_problem_status (some (lit "Failed to add problem."))
after_add token contest_id (some _) = do
  set_problem_status (some (lit "Problem added."))
  set (λ s. record s { add_problem_id = [] })
  load_contest_problems token contest_id

unfoldable pub add_to : Text → Option ℕ → Manager → Handler
unfolding set_problem_status after_add addition
add_to token none s = done
add_to token (some contest_id) s = do
  set_problem_status none
  after_add (some token) contest_id (← call (post_contest_problem token contest_id (addition s)))

unfoldable pub handle_add_problem : AuthToken → Manager → Handler
unfolding add_to
handle_add_problem none s = done
handle_add_problem (some token) s = add_to token s.managing_contest_id s

unfoldable pub after_remove : AuthToken → ℕ → Option (Unit {0}) → Handler
unfolding set_problem_status load_contest_problems
after_remove token contest_id none = set_problem_status (some (lit "Failed to remove problem."))
after_remove token contest_id (some _) = load_contest_problems token contest_id

unfoldable pub remove_from : Text → Option ℕ → ℕ → Handler
unfolding after_remove
remove_from token none problem_id = done
remove_from token (some contest_id) problem_id =
    call (delete_contest_problem token contest_id problem_id)
    >>= after_remove (some token) contest_id

unfoldable pub handle_remove_problem : AuthToken → Manager → ℕ → Handler
unfolding remove_from
handle_remove_problem none s problem_id = done
handle_remove_problem (some token) s problem_id = remove_from token s.managing_contest_id problem_id
