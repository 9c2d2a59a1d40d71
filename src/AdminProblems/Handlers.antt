-- ===== src/AdminProblems/Handlers.antt =====
-- frontend/src/app/admin/problems/page.tsx: the handlers, over the state `s` and the token of the
-- render that they close over.
use jjudge.Prelude.{ℕ, Bool, true, false, Option, none, some, ◌==◌, Text, lit}
use jjudge.Async.{◌>>=◌, ◌>>◌, done, set, call}
use jjudge.ProblemEditor.{Problem, UploadMode, individual, zip, File, Editor}
use jjudge.ProblemEditor.Payload.{individual_form, zip_form}
use jjudge.ProblemEditor.Handlers.{AuthToken, reset_form, fill_form, saved_status}
use jjudge.AdminProblems.{
  Body, normalize_problems, list_problems, get_problem, delete_problem, post_problem, post_zip,
  put_problem, put_zip, Handler,
}

set_error : Option Text → Handler
set_error e = set (λ s. record s { error = e })

set_submit_status : Option Text → Handler
set_submit_status e = set (λ s. record s { submit_status = e })

unfoldable pub listed : Option Body → Handler
unfolding set_error
listed none = set_error (some (lit "Failed to load problems."))
listed (some body) = set (λ s. record s { problems = normalize_problems body })

unfoldable pub load_problems : AuthToken → Handler
unfolding set_error listed
load_problems none = done
load_problems (some token) = do
  set (λ s. record s { loading = true })
  set_error none
  listed (← call (list_problems token))
  set (λ s. record s { loading = false })

unfoldable pub detailed : Option (Option Problem) → Handler
unfolding set_error
detailed none = set_error (some (lit "Failed to load full problem details."))
detailed (some p) = set (fill_form p)

unfoldable pub handle_edit : AuthToken → Problem → Handler
unfolding set_error detailed
handle_edit none problem = set_error (some (lit "You must be signed in to manage problems."))
handle_edit (some token) problem = do
  set (λ s. record s { editing_id = some problem.id })
  set (λ s. record s { loading_problem = true })
  set_error none
  detailed (← call (get_problem token problem.id))
  set (λ s. record s { loading_problem = false })

-- `editingId === id`
unfoldable pub is_edited : Option ℕ → ℕ → Bool
is_edited none id = false
is_edited (some i) id = i == id

-- `if (editingId === id) { resetForm(); }`
unfoldable pub reset_if : Bool → Editor → Editor
reset_if true s = reset_form s
reset_if false s = s

unfoldable pub deleted : Text → Option ℕ → ℕ → Option (Unit {0}) → Handler
unfolding set_error load_problems
deleted token editing_id id none = set_error (some (lit "Delete failed. Try again."))
deleted token editing_id id (some _) = do
  set (reset_if (is_edited editing_id id))
  load_problems (some token)

-- `confirmed` is what the user answers to `confirm(...)`.
unfoldable pub delete_confirmed : Text → Editor → ℕ → Bool → Handler
unfolding set_error deleted
delete_confirmed token s id false = done
delete_confirmed token s id true = do
  set_error none
  deleted token s.editing_id id (← call (delete_problem token id))

unfoldable pub handle_delete : AuthToken → Editor → ℕ → Bool → Handler
unfolding set_error delete_confirmed
handle_delete none s id confirmed =
    set_error (some (lit "You must be signed in to manage problems."))
handle_delete (some token) s id confirmed = delete_confirmed token s id confirmed

unfoldable pub after_save : AuthToken → Option ℕ → Option (Unit {0}) → Handler
unfolding set_submit_status load_problems
after_save token editing_id none =
    set_submit_status (some (lit "Save failed. Check the data and try again."))
after_save token editing_id (some _) = do
  set_submit_status (some (saved_status editing_id))
  load_problems token

unfoldable pub send_zip : Text → Editor → Option ℕ → Option File → Handler
unfolding set_submit_status set_error after_save
send_zip token s editing_id none = do
  set_submit_status none
  set_error (some (lit "Please select a ZIP file."))
send_zip token s (some i) (some archive) =
    call (put_zip token i (zip_form s archive)) >>= after_save (some token) (some i)
send_zip token s none (some archive) =
    call (post_zip token (zip_form s archive)) >>= after_save (some token) none

unfoldable pub send_individual : Text → Editor → Option ℕ → Handler
unfolding after_save
send_individual token s (some i) =
    call (put_problem token i (individual_form s)) >>= after_save (some token) (some i)
send_individual token s none =
    call (post_problem token (individual_form s)) >>= after_save (some token) none

unfoldable pub send : Text → Editor → UploadMode → Handler
unfolding send_zip send_individual
send token s zip = send_zip token s s.editing_id s.zip_file
send token s individual = send_individual token s s.editing_id

unfoldable pub handle_submit : AuthToken → Editor → Handler
unfolding set_submit_status set_error send
handle_submit none s = do
  set_submit_status none
  set_error none
  set_error (some (lit "You must be signed in to create or update problems."))
handle_submit (some token) s = do
  set_submit_status none
  set_error none
  set_submit_status (some (lit "Saving..."))
  send token s s.upload_mode
