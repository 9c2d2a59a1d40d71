-- ===== src/AdminContests/Tests.antt =====
-- The theorems on the contests of administrators at concrete inputs.
use jjudge.Prelude.{◌≡◌, refl, true, [], ◌∷◌, none, some, lit}
use jjudge.Async.Run.{Oracle, run}
use jjudge.ContestManager.{Contest, Manager}
use jjudge.ContestManager.Handlers as Managers
use jjudge.ContestManager.Handlers.{initial}
use jjudge.AdminContests.{
  Request, list_contests, list_problems, post_contest, put_contest, delete_contest,
  get_contest_problems, post_contest_problem, delete_contest_problem, post_rejudge, Answer,
}
use jjudge.AdminContests.Handlers.{
  load_contests, load_all_problems, open_problem_panel, handle_add_problem, handle_remove_problem,
  handle_submit, deleted, handle_delete,
}
use jjudge.AdminContests.Refinement.{Refines, admin_contests-Refines}

abbrev contest : Contest
contest = record {
  id = 4;
  title = lit "Spring Round";
  description = none;
  start_time = lit "2026-01-31T10:00:00Z";
  end_time = lit "2026-01-31T15:00:00Z";
  scoring_type = lit "icpc";
  visibility = lit "public";
  approval_status = lit "approved";
}

-- A page with a contest that is both in the form and in the panel.
abbrev editing : Manager
editing = record initial {
  contests = contest ∷ [];
  editing_id = some 4;
  managing_contest_id = some 4;
}

-- A server that takes everything.
abbrev accept : Oracle Request Answer
accept h (list_contests t) = some (some (contest ∷ []))
accept h (list_problems t) = some (some [])
accept h (post_contest t p) = some tt
accept h (put_contest t i p) = some tt
accept h (delete_contest t i) = some tt
accept h (get_contest_problems t i) = some (some [])
accept h (post_contest_problem t i a) = some tt
accept h (delete_contest_problem t i j) = some tt
accept h (post_rejudge t i j) = some tt

admin_contests-Refines_example :
    Refines accept editing
      (Managers.load_contests (some (lit "token")))
      (load_contests (some (lit "token")))
    × Refines accept editing
        (Managers.load_all_problems (some (lit "token")))
        (load_all_problems (some (lit "token")))
    × Refines accept editing
        (Managers.open_problem_panel (some (lit "token")) 9)
        (open_problem_panel (some (lit "token")) 9)
    × Refines accept editing
        (Managers.handle_add_problem (some (lit "token")) editing)
        (handle_add_problem (some (lit "token")) editing)
    × Refines accept editing
        (Managers.handle_remove_problem (some (lit "token")) editing 9)
        (handle_remove_problem (some (lit "token")) editing 9)
    × Refines accept editing
        (Managers.handle_submit some (some (lit "token")) editing)
        (handle_submit some (some (lit "token")) editing)
admin_contests-Refines_example =
    admin_contests-Refines accept some (some (lit "token")) editing editing 9

-- The deleted contest is still in the form, and the next submission asks to change it.
deleted_in_form_test :
    (run accept [] editing (handle_delete (some (lit "token")) 4 true)).state
    ≡ record editing { contests = [] }
unfolding handle_delete deleted initial
deleted_in_form_test = refl
