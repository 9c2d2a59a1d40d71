-- ===== src/ProblemEditor/Submit.antt =====
-- frontend/src/app/manager/problems/page.tsx: what `handleSubmit` and `loadProblems` send, and the
-- state in which they leave the page, for every way in which the server may answer.
use jjudge.Prelude.{
  Bool, true, ℕ, ◌≡◌, refl, true, false, List, [], ◌∷◌, Option, none, some, Text, lit,
}
use jjudge.Async.{set, ◌>>◌}
use jjudge.Async.Run.{Oracle, Outcome, run, is_taken}
use jjudge.ProblemEditor.{
  Problem, Editor, File, UploadMode, individual, zip, Request, list_problems, post_problem,
  post_zip, put_problem, put_zip, Answer,
}
use jjudge.ProblemEditor.Payload.{individual_form, zip_form}
use jjudge.ProblemEditor.Handlers.{
  listed, load_problems, handle_submit, send, send_zip, send_individual, after_save, saved_status,
}

-- The request that saves the problem: an update where one is edited, else a creation; `none` in
-- archive mode with no archive chosen.
abbrev pub save_individual : Text → Editor → Option ℕ → Request
save_individual t s none = post_problem t (individual_form s)
save_individual t s (some i) = put_problem t i (individual_form s)

abbrev pub save_zip : Text → Editor → Option ℕ → Option File → Option Request
save_zip t s i none = none
save_zip t s none (some f) = some (post_zip t (zip_form s f))
save_zip t s (some i) (some f) = some (put_zip t i (zip_form s f))

abbrev pub save_request : Text → Editor → UploadMode → Option Request
save_request t s individual = some (save_individual t s s.editing_id)
save_request t s zip = save_zip t s s.editing_id s.zip_file

-- All is left as it was but the list of problems, its flag and the two messages.
abbrev pub SameForm : Editor → Editor → Type 0
SameForm s t = t ≡ record s {
  problems = t.problems;
  loading = t.loading;
  error = t.error;
  submit_status = t.submit_status;
}

-- Whether the server takes a request that saves, as the first one of all.
abbrev pub is_saved : Oracle Request Answer → Request → Bool
is_saved o (post_problem t f) = is_taken (o [] (post_problem t f))
is_saved o (post_zip t f) = is_taken (o [] (post_zip t f))
is_saved o (put_problem t i f) = is_taken (o [] (put_problem t i f))
is_saved o (put_zip t i f) = is_taken (o [] (put_zip t i f))
is_saved o _ = false

-- The end of a submission, given whether the request that saves was taken; the requests are listed
-- the last one first.
abbrev pub Ended :
    Bool
    → Text
    → Option ℕ
    → List Problem
    → List Request
    → Outcome Request Editor (Unit {0})
    → Type 0
Ended true t i ps h out =
    (out.sent ≡ list_problems t ∷ h) × (out.state.submit_status ≡ some (saved_status i))
Ended false t i ps h out =
    (out.sent ≡ h)
    × (out.state.submit_status ≡ some (lit "Save failed. Check the data and try again."))
    × (out.state.problems ≡ ps)

-- What comes of the request that saves, `none` where there is none to send.
abbrev pub Saved :
    Oracle Request Answer
    → Text
    → Option ℕ
    → List Problem
    → Option Request
    → Outcome Request Editor (Unit {0})
    → Type 0
Saved o t i ps none out =
    (out.sent ≡ [])
    × (out.state.submit_status ≡ none)
    × (out.state.error ≡ some (lit "Please select a ZIP file."))
Saved o t i ps (some r) out = Ended (is_saved o r) t i ps (r ∷ []) out

-- The end of `loadProblems`, from any state.
listed_lem :
    (o : Oracle Request Answer) (h : List Request) (u : Editor) (a : Option (Option (List Problem)))
    → let out = run o h u (listed a >> set (λ s. record s { loading = false })) in
      (out.sent ≡ h)
      × (out.state.loading ≡ false)
      × (out.state.submit_status ≡ u.submit_status)
      × SameForm u out.state
unfolding listed
listed_lem o h u none = (refl, refl, refl, refl)
listed_lem o h u (some x) = (refl, refl, refl, refl)

load_problems_lem :
    (o : Oracle Request Answer) (h : List Request) (u : Editor) (t : Text)
    → let out = run o h u (load_problems (some t)) in
      (out.sent ≡ list_problems t ∷ h)
      × (out.state.loading ≡ false)
      × (out.state.submit_status ≡ u.submit_status)
      × SameForm u out.state
unfolding load_problems
load_problems_lem o h u t =
    listed_lem o (list_problems t ∷ h) (record u { loading = true; error = none })
      (o h (list_problems t))

after_save_lem :
    (o : Oracle Request Answer) (h : List Request) (u : Editor) (t : Text) (i : Option ℕ)
    (a : Option (Unit {0}))
    → let out = run o h u (after_save (some t) i a) in
      Ended (is_taken a) t i u.problems h out × SameForm u out.state
unfolding after_save
after_save_lem o h u t i none = ((refl, refl, refl), refl)
after_save_lem o h u t i (some x) =
    let (sent, _, status, same) =
      load_problems_lem o h (record u { submit_status = some (saved_status i) }) t in
    ((sent, status), same)

send_individual_lem :
    (o : Oracle Request Answer) (s u : Editor) (t : Text) (i : Option ℕ)
    → let out = run o [] u (send_individual t s i) in
      Saved o t i u.problems (some (save_individual t s i)) out × SameForm u out.state
unfolding send_individual
send_individual_lem o s u t none =
    after_save_lem o _ u t none (o [] (post_problem t (individual_form s)))
send_individual_lem o s u t (some i) =
    after_save_lem o _ u t (some i) (o [] (put_problem t i (individual_form s)))

send_zip_lem :
    (o : Oracle Request Answer) (s u : Editor) (t : Text) (i : Option ℕ) (z : Option File)
    → let out = run o [] u (send_zip t s i z) in
      Saved o t i u.problems (save_zip t s i z) out × SameForm u out.state
unfolding send_zip
send_zip_lem o s u t i none = ((refl, refl, refl), refl)
send_zip_lem o s u t none (some f) = after_save_lem o _ u t none (o [] (post_zip t (zip_form s f)))
send_zip_lem o s u t (some i) (some f) =
    after_save_lem o _ u t (some i) (o [] (put_zip t i (zip_form s f)))

send_lem :
    (o : Oracle Request Answer) (s u : Editor) (t : Text) (m : UploadMode)
    → let out = run o [] u (send t s m) in
      Saved o t s.editing_id u.problems (save_request t s m) out × SameForm u out.state
unfolding send
send_lem o s u t individual = send_individual_lem o s u t s.editing_id
send_lem o s u t zip = send_zip_lem o s u t s.editing_id s.zip_file

-- Submitting the form, whatever the server answers. Without a token nothing is sent. With one, and
-- in archive mode with no archive, nothing is sent either; otherwise exactly one request saves the
-- problem, an update of the problem that is being edited or else a creation, and then the list is
-- loaded anew if it succeeded, and nothing more is sent and the list stays if it failed. The
-- messages say which of these it was, and the form stays as it was in every case.
pub handle_submit_lem :
    (o : Oracle Request Answer) (s : Editor)
    → (let out = run o [] s (handle_submit none s) in
        (out.sent ≡ [])
        × (out.state.error ≡ some (lit "You must be signed in to create or update problems."))
        × SameForm s out.state)
      × ((t : Text)
          → let out = run o [] s (handle_submit (some t) s) in
            Saved o t s.editing_id s.problems (save_request t s s.upload_mode) out
            × SameForm s out.state)
unfolding handle_submit
handle_submit_lem o s = (
  (refl, refl, refl),
  λ t.
      send_lem o s (record s { error = none; submit_status = some (lit "Saving...") }) t
        s.upload_mode,
)
