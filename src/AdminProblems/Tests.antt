-- ===== src/AdminProblems/Tests.antt =====
-- The theorems on the page of administrators at concrete inputs.
use jjudge.Prelude.{ℕ, ◌≡◌, ◌≢◌, refl, [], ◌∷◌, Option, none, some, lit}
use jjudge.Async.{ret}
use jjudge.Async.Run.{Oracle}
use jjudge.Async.Schedule.{Page, here, next, start, settle}
use jjudge.ProblemEditor.{Problem, Editor}
use jjudge.ProblemEditor.Groups.{add_group}
use jjudge.ProblemEditor.Handlers as Managers
use jjudge.ProblemEditor.Handlers.{initial}
use jjudge.ProblemEditor.Events as Form
use jjudge.ProblemEditor.Ids.{IsValid}
use jjudge.AdminProblems.{
  array, wrapped, normalize_problems, Request, list_problems, get_problem, delete_problem,
  post_problem, post_zip, put_problem, put_zip, Answer,
}
use jjudge.AdminProblems.Handlers.{load_problems, handle_edit, deleted, handle_submit}
use jjudge.AdminProblems.Events.{form, handler, enabled}
use jjudge.AdminProblems.Refinement.{Refines, admin-Refines}
use jjudge.AdminProblems.Deletion.{deleted-stale}
use jjudge.AdminProblems.Reachable.{admin_Reach-IsValid}

abbrev problem : Problem
problem = record {
  id = 7;
  title = some (lit "Max Flow");
  description = none;
  difficulty = none;
  time_limit = none;
  memory_limit = none;
  tags = none;
  visibility = none;
  approval_status = none;
  testcase_groups = none;
}

normalize_problems_test :
    normalize_problems (wrapped none (some (problem ∷ [])) none) ≡ problem ∷ []
unfolding normalize_problems
normalize_problems_test = refl

-- A server that takes everything.
abbrev accept : Oracle Request Answer
accept h (list_problems t) = some (array (problem ∷ []))
accept h (get_problem t i) = some (some problem)
accept h (delete_problem t i) = some tt
accept h (post_problem t f) = some tt
accept h (post_zip t f) = some tt
accept h (put_problem t i f) = some tt
accept h (put_zip t i f) = some tt

admin-Refines_example :
    Refines accept initial
      (Managers.load_problems (some (lit "token")))
      (load_problems (some (lit "token")))
    × Refines accept initial
        (Managers.handle_edit (some (lit "token")) problem)
        (handle_edit (some (lit "token")) problem)
    × Refines accept initial
        (Managers.handle_submit (some (lit "token")) initial)
        (handle_submit (some (lit "token")) initial)
admin-Refines_example = admin-Refines accept (some (lit "token")) initial problem

none_edited : ◌≢◌ {A = Option ℕ} none (some 7)
none_edited e = cc

deleted-stale_example :
    let u =
      settle (record initial { editing_id = some 7 }) (deleted (lit "token") none 7 (some tt)) in
    u.0.editing_id ≡ some 7
deleted-stale_example =
    deleted-stale (lit "token") none 7 (record initial { editing_id = some 7 }) none_edited refl

-- The page after a click on "+ GROUP".
abbrev two_groups : Page Request Answer Editor
two_groups = record { state = add_group initial; tasks = ret tt ∷ [] }

admin_Reach-IsValid_example : IsValid (add_group initial)
unfolding handler enabled Form.change Form.enabled
admin_Reach-IsValid_example = admin_Reach-IsValid none two_groups (
    next here
      (start _ (record { event = form Form.click_add_group; is_enabled = refl; runs = refl }) refl))
