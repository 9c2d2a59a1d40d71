-- ===== src/ProblemEditor/Handlers.antt =====
-- frontend/src/app/manager/problems/page.tsx: the handlers. A handler gets the state `s` of the
-- render that it closes over, and the token of that render; its updates act on the current state.
use jjudge.Prelude.{
  ℕ, suc, ◌+◌, Bool, true, false, List, [], ◌∷◌, Option, none, some, length, or_else, if◌then◌else◌,
  Text, lit, text_eq, join,
}
use jjudge.Async.{◌>>=◌, ◌>>◌, done, set, call}
use jjudge.ProblemEditor.{
  ApiGroup, ApiTestcase, Problem, Testcase, TestcaseGroup, Visibility, public, private, UploadMode,
  individual, zip, File, Editor, list_problems, get_problem, post_problem, post_zip, put_problem,
  put_zip, Handler,
}
use jjudge.ProblemEditor.Groups.{create_testcase, create_group, group_name}
use jjudge.ProblemEditor.Payload.{individual_form, zip_form}

-- The first render.
unfoldable pub initial : Editor
unfolding create_group
initial = record {
  problems = [];
  loading = false;
  loading_problem = false;
  error = none;
  editing_id = none;
  title = lit "Sample Problem";
  description = lit "Explain the task here.";
  difficulty = 0;
  time_limit = 1000;
  memory_limit = 268435456;
  tags = lit "arrays, math";
  visibility = public;
  groups = create_group 0 0 ∷ [];
  upload_mode = individual;
  zip_file = none;
  submit_status = none;
  supply = 2;
}

-- `auth.token`, where it is neither null nor empty.
abbrev pub AuthToken : Type 0
AuthToken = Option Text

set_loading : Bool → Handler
set_loading b = set (λ s. record s { loading = b })

set_error : Option Text → Handler
set_error e = set (λ s. record s { error = e })

set_submit_status : Option Text → Handler
set_submit_status e = set (λ s. record s { submit_status = e })

-- `loadProblems` once the list has come, or the request was rejected.
unfoldable pub listed : Option (Option (List Problem)) → Handler
unfolding set_error
listed none = set_error (some (lit "Failed to load problems."))
listed (some items) = set (λ s. record s { problems = or_else items [] })

unfoldable pub load_problems : AuthToken → Handler
unfolding set_loading set_error listed
load_problems none = done
load_problems (some token) = do
  set_loading true
  set_error none
  listed (← call (list_problems token))
  set_loading false

-- The updates of `resetForm`.
unfoldable pub reset_form : Editor → Editor
unfolding create_group
reset_form s = record s {
  editing_id = none;
  title = lit "Sample Problem";
  description = lit "Explain the task here.";
  difficulty = 0;
  time_limit = 1000;
  memory_limit = 268435456;
  tags = lit "arrays, math";
  visibility = public;
  groups = create_group s.supply 0 ∷ [];
  upload_mode = individual;
  zip_file = none;
  submit_status = none;
  error = none;
  supply = s.supply + 2;
}

-- The groups that `handleEdit` makes of those of the server, with as many testcases and no files.
unfoldable pub fresh_testcases : ℕ → ℕ → List ApiTestcase → List Testcase
unfolding create_testcase
fresh_testcases uuid index [] = []
fresh_testcases uuid index (_ ∷ ts) =
    create_testcase uuid index ∷ fresh_testcases (uuid + 1) (suc index) ts

unfoldable pub fresh_group : ℕ → ℕ → List ApiTestcase → TestcaseGroup
unfolding group_name fresh_testcases
fresh_group uuid index ts = record {
  id = uuid;
  ordinal = index;
  name = group_name index;
  points = 100;
  testcases = fresh_testcases (uuid + 1) 0 ts;
}

unfoldable pub fresh_groups : ℕ → ℕ → List ApiGroup → List TestcaseGroup
unfolding fresh_group
fresh_groups uuid index [] = []
fresh_groups uuid index (g ∷ gs) =
    let ts = or_else g.testcases [] in
    fresh_group uuid index ts ∷ fresh_groups (uuid + 1 + length ts) (suc index) gs

unfoldable pub ids_of_groups : List ApiGroup → ℕ
ids_of_groups [] = 0
ids_of_groups (g ∷ gs) = 1 + length (or_else g.testcases []) + ids_of_groups gs

-- `if (detailed?.testcase_groups?.length)`
unfoldable pub set_groups : List ApiGroup → Editor → Editor
unfolding create_group fresh_groups ids_of_groups
set_groups [] s = record s { groups = create_group s.supply 0 ∷ []; supply = s.supply + 2 }
set_groups (g ∷ gs) s = record s {
  groups = fresh_groups s.supply 0 (g ∷ gs);
  supply = s.supply + ids_of_groups (g ∷ gs);
}

unfoldable pub visibility_of : Option Text → Visibility
visibility_of none = public
visibility_of (some v) = if text_eq v (lit "private") then private else public

unfoldable pub join_tags : Option (List Text) → Text
join_tags none = []
join_tags (some tags) = join (lit ", ") tags

-- The updates of `handleEdit` with a problem, or with null: the fields, then the groups.
unfoldable pub fill_fields : Option Problem → Editor → Editor
unfolding visibility_of join_tags
fill_fields none s = record s {
  title = [];
  description = [];
  difficulty = 0;
  time_limit = 1000;
  memory_limit = 268435456;
  tags = [];
  visibility = public;
}
fill_fields (some p) s = record s {
  title = or_else p.title [];
  description = or_else p.description [];
  difficulty = or_else p.difficulty 0;
  time_limit = or_else p.time_limit 1000;
  memory_limit = or_else p.memory_limit 268435456;
  tags = join_tags p.tags;
  visibility = visibility_of p.visibility;
}

unfoldable pub groups_of : Option Problem → List ApiGroup
groups_of none = []
groups_of (some p) = or_else p.testcase_groups []

unfoldable pub fill_form : Option Problem → Editor → Editor
unfolding set_groups fill_fields groups_of
fill_form p s = set_groups (groups_of p) (fill_fields p s)

-- `handleEdit` once the problem has come, or the request was rejected.
unfoldable pub detailed : Option (Option Problem) → Handler
unfolding set_error
detailed none = set_error (some (lit "Failed to load full problem details."))
detailed (some p) = set (fill_form p)

unfoldable pub handle_edit : AuthToken → Problem → Handler
unfolding set_error detailed
handle_edit none problem = set_error (some (lit "You must be signed in to manage problems."))
handle_edit (some token) problem = do
  set (λ s. record s { editing_id = some problem.id })
  set (λ s. record s { loading_problem = true })
  set_error none
  detailed (← call (get_problem token problem.id))
  set (λ s. record s { loading_problem = false })

-- `editingId !== null ? "Update succeeded." : "Upload succeeded."`
unfoldable pub saved_status : Option ℕ → Text
saved_status none = lit "Upload succeeded."
saved_status (some i) = lit "Update succeeded."

-- What `handleSubmit` does with the answer to the request that saves the problem.
unfoldable pub after_save : AuthToken → Option ℕ → Option (Unit {0}) → Handler
unfolding set_submit_status saved_status load_problems
after_save token editing_id none =
    set_submit_status (some (lit "Save failed. Check the data and try again."))
after_save token editing_id (some _) = do
  set_submit_status (some (saved_status editing_id))
  load_problems token

unfoldable pub send_zip : Text → Editor → Option ℕ → Option File → Handler
unfolding set_submit_status set_error after_save
send_zip token s editing_id none = do
  set_submit_status none
  set_error (some (lit "Please select a ZIP file."))
send_zip token s (some i) (some archive) =
    call (put_zip token i (zip_form s archive)) >>= after_save (some token) (some i)
send_zip token s none (some archive) =
    call (post_zip token (zip_form s archive)) >>= after_save (some token) none

unfoldable pub send_individual : Text → Editor → Option ℕ → Handler
unfolding after_save
send_individual token s (some i) =
    call (put_problem token i (individual_form s)) >>= after_save (some token) (some i)
send_individual token s none =
    call (post_problem token (individual_form s)) >>= after_save (some token) none

unfoldable pub send : Text → Editor → UploadMode → Handler
unfolding send_zip send_individual
send token s zip = send_zip token s s.editing_id s.zip_file
send token s individual = send_individual token s s.editing_id

unfoldable pub handle_submit : AuthToken → Editor → Handler
unfolding set_submit_status set_error send
handle_submit none s = do
  set_submit_status none
  set_error none
  set_error (some (lit "You must be signed in to create or update problems."))
handle_submit (some token) s = do
  set_submit_status none
  set_error none
  set_submit_status (some (lit "Saving..."))
  send token s s.upload_mode
