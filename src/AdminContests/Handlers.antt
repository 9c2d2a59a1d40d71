-- ===== src/AdminContests/Handlers.antt =====
-- frontend/src/app/admin/contests/page.tsx: the handlers, over the state and the token of the render
-- that they close over. `confirmed` is what the user answers to `confirm(...)`.
use jjudge.Prelude.{
  ℕ, Bool, true, false, not, List, [], Option, none, some, or_else, filter, ◌==◌, Text, lit,
}
use jjudge.Async.{◌>>=◌, ◌>>◌, done, set, call}
use jjudge.ContestManager.{Contest, Problem, ContestProblem, Manager, Payload}
use jjudge.ContestManager.Handlers.{AuthToken, reset_form, payload, addition}
use jjudge.AdminContests.{
  list_contests, list_problems, post_contest, put_contest, delete_contest, get_contest_problems,
  post_contest_problem, delete_contest_problem, post_rejudge, Handler,
}

set_error : Option Text → Handler
set_error e = set (λ s. record s { error = e })

set_problem_status : Text → Handler
set_problem_status e = set (λ s. record s { problem_status = some e })

unfoldable pub listed : Option (Option (List Contest)) → Handler
unfolding set_error
listed none = set_error (some (lit "Failed to load contests."))
listed (some items) = set (λ s. record s { contests = or_else items [] })

unfoldable pub load_contests : AuthToken → Handler
unfolding set_error listed
load_contests none = done
load_contests (some token) = do
  set (λ s. record s { loading = true })
  set_error none
  listed (← call (list_contests token))
  set (λ s. record s { loading = false })

-- A failure is ignored.
unfoldable pub known_problems : Option (Option (List Problem)) → Handler
known_problems none = done
known_problems (some items) = set (λ s. record s { all_problems = or_else items [] })

unfoldable pub load_all_problems : AuthToken → Handler
unfolding known_problems
load_all_problems none = done
load_all_problems (some token) = call (list_problems token) >>= known_problems

unfoldable pub saved_status : Option ℕ → Text
saved_status none = lit "Contest created."
saved_status (some i) = lit "Contest updated."

unfoldable pub after_save : AuthToken → Option ℕ → Option (Unit {0}) → Handler
unfolding set_error load_contests saved_status
after_save token editing_id none = set_error (some (lit "Failed to save contest."))
after_save token editing_id (some _) = do
  set (λ s. record s { status = some (saved_status editing_id) })
  set reset_form
  load_contests token

unfoldable pub save : Text → Option ℕ → Payload → Handler
unfolding after_save
save token none p = call (post_contest token p) >>= after_save (some token) none
save token (some i) p = call (put_contest token i p) >>= after_save (some token) (some i)

-- The payload is made outside of the `try`.
unfoldable pub send : Text → Option ℕ → Option Payload → Handler
unfolding save
send token editing_id none = done
send token editing_id (some p) = save token editing_id p

unfoldable pub handle_submit : (Text → Option Text) → AuthToken → Manager → Handler
unfolding set_error send
handle_submit iso none s = done
handle_submit iso (some token) s = do
  set (λ s. record s { status = none })
  set_error none
  send token s.editing_id (payload iso s)

unfoldable pub deleted : ℕ → Option (Unit {0}) → Handler
unfolding set_error
deleted id none = set_error (some (lit "Failed to delete contest."))
deleted id (some _) = set (λ s. record s { contests = filter (λ c. not (c.id == id)) s.contests })

unfoldable pub handle_delete : AuthToken → ℕ → Bool → Handler
unfolding deleted
handle_delete none id confirmed = done
handle_delete (some token) id false = done
handle_delete (some token) id true = call (delete_contest token id) >>= deleted id

unfoldable pub shown_problems : Option (Option (List ContestProblem)) → Handler
shown_problems none = set (λ s. record s { contest_problems = [] })
shown_problems (some items) = set (λ s. record s { contest_problems = or_else items [] })

unfoldable pub load_contest_problems : AuthToken → ℕ → Handler
unfolding shown_problems
load_contest_problems none contest_id = done
load_contest_problems (some token) contest_id =
    call (get_contest_problems token contest_id) >>= shown_problems

unfoldable pub open_problem_panel : AuthToken → ℕ → Handler
unfolding load_contest_problems
open_problem_panel token contest_id = do
  set (λ s. record s { managing_contest_id = some contest_id })
  set (λ s. record s { problem_status = none })
  load_contest_problems token contest_id

unfoldable pub after_add : AuthToken → ℕ → Option (Unit {0}) → Handler
unfolding set_problem_status load_contest_problems
after_add token contest_id none = set_problem_status (lit "Failed to add problem.")
after_add token contest_id (some _) = do
  set_problem_status (lit "Problem added.")
  set (λ s. record s { add_problem_id = [] })
  load_contest_problems token contest_id

unfoldable pub add_to : Text → Option ℕ → Manager → Handler
unfolding after_add
add_to token none s = done
add_to token (some contest_id) s = do
  set (λ s. record s { problem_status = none })
  after_add (some token) contest_id (← call (post_contest_problem token contest_id (addition s)))

unfoldable pub handle_add_problem : AuthToken → Manager → Handler
unfolding add_to
handle_add_problem none s = done
handle_add_problem (some token) s = add_to token s.managing_contest_id s

unfoldable pub after_remove : AuthToken → ℕ → Option (Unit {0}) → Handler
unfolding set_problem_status load_contest_problems
after_remove token contest_id none = set_problem_status (lit "Failed to remove problem.")
after_remove token contest_id (some _) = load_contest_problems token contest_id

unfoldable pub remove_from : Text → Option ℕ → ℕ → Handler
unfolding after_remove
remove_from token none problem_id = done
remove_from token (some contest_id) problem_id =
    call (delete_contest_problem token contest_id problem_id)
    >>= after_remove (some token) contest_id

unfoldable pub handle_remove_problem : AuthToken → Manager → ℕ → Handler
unfolding remove_from
handle_remove_problem none s problem_id = done
handle_remove_problem (some token) s problem_id = remove_from token s.managing_contest_id problem_id

unfoldable pub rejudged : Option (Unit {0}) → Handler
unfolding set_problem_status
rejudged none = set_problem_status (lit "Failed to rejudge.")
rejudged (some _) = set_problem_status (lit "Rejudge enqueued.")

unfoldable pub rejudge_in : Text → Option ℕ → ℕ → Bool → Handler
unfolding rejudged
rejudge_in token none problem_id confirmed = done
rejudge_in token (some contest_id) problem_id false = done
rejudge_in token (some contest_id) problem_id true =
    call (post_rejudge token contest_id problem_id) >>= rejudged

unfoldable pub handle_rejudge : AuthToken → Manager → ℕ → Bool → Handler
unfolding rejudge_in
handle_rejudge none s problem_id confirmed = done
handle_rejudge (some token) s problem_id confirmed =
    rejudge_in token s.managing_contest_id problem_id confirmed
