-- ===== src/SubmissionForm/Outcomes.antt =====
-- What a submission comes to, for every answer of the server.
use jjudge.Prelude.{◌≡◌, refl, Bool, true, false, List, [], ◌∷◌, none, some, lit, truthy, trim}
use jjudge.Async.Run.{Oracle, Outcome, run}
use jjudge.SubmissionForm.{
  Target, Form, Request, post_submission, Answer, Result, failed, created, destination, failure,
  submitted, finish, send, handle_submit,
}

-- The form after the answer.
abbrev pub answered : Target → Result → Form → Form
answered x (created id) s = record s {
  is_submitting = false;
  error = none;
  success = true;
  visited = destination x id ∷ s.visited;
}
answered x (failed status) s = record s {
  is_submitting = false;
  error = some (failure x status);
  success = false;
}

finish_lem :
    (o : Oracle Request Answer) (h : List Request) (x : Target) (s : Form) (a : Result)
    → let out =
        run o h (record s { is_submitting = true; error = none; success = false }) (finish x a) in
      (out.sent ≡ h) × (out.state ≡ answered x a s)
unfolding finish submitted
finish_lem o h x s (created id) = (refl, refl)
finish_lem o h x s (failed status) = (refl, refl)

-- What a submission comes to, given whether there is code in the form.
abbrev pub Sent :
    Bool → Oracle Request Answer → Target → Form → Outcome Request Form (Unit {0}) → Type 0
Sent false o x s out =
    (out.sent ≡ []) × (out.state ≡ record s { error = some (lit "Code is required.") })
Sent true o x s out =
    let r = post_submission x s.language s.code in
    (out.sent ≡ r ∷ []) × (out.state ≡ answered x (o [] r) s)

send_lem :
    (o : Oracle Request Answer) (x : Target) (s : Form) (b : Bool)
    → Sent b o x s (run o [] s (send x s b))
unfolding send
send_lem o x s false = (refl, refl)
send_lem o x s true =
    let r = post_submission x s.language s.code in finish_lem o (r ∷ []) x s (o [] r)

-- A submission of white space sends nothing and says that code is required. Any other sends the code
-- as it is, once, for the problem of the form; a success is reported and leads to the submission, or
-- to the list where the answer has no id; a failure is reported, in a contest with its reason where the
-- status is 403 or 400. In both cases the form can be sent again, with its code.
pub handle_submit-Sent :
    (o : Oracle Request Answer) (x : Target) (s : Form)
    → Sent (truthy (trim s.code)) o x s (run o [] s (handle_submit x s))
unfolding handle_submit
handle_submit-Sent o x s = send_lem o x s (truthy (trim s.code))
