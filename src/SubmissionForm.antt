-- ===== src/SubmissionForm.antt =====
-- frontend/src/app/problems/[id]/submission-form.tsx and frontend/src/app/contests/[id]/problems/
-- [problemId]/contest-submission-form.tsx: the forms that send a solution, the one for a problem and
-- the other for a problem of a contest.
pub mod Outcomes
pub mod Once
mod Tests
use jjudge.Prelude.{
  ℕ, suc, ◌≡◌, Bool, true, false, not, ◌==◌, List, [], ◌∷◌, ◌++◌, Option, none, some, if◌then◌else◌,
  Text, lit, truthy, trim, to_string,
}
use jjudge.Async.{Task, ret, done, set, call, ◌>>=◌, ◌>>◌}

-- The properties of the two components.
pub data Target : Type 0 where
  practice : ℕ → Target
  contest : ℕ → ℕ → Target

-- `visited` logs what `router.push` was given, the last one first.
pub record Form : Type 0 where
  pub language : Text
  pub code : Text
  pub is_submitting : Bool
  pub error : Option Text
  pub success : Bool
  pub visited : List Text

pub data Request : Type 0 where
  post_submission : Target → Text → Text → Request

-- The promise of a request: `failed` with the status of an `ApiError`, or with another error; or the
-- id of the submission, if the body has one.
pub data Result : Type 0 where
  failed : Option ℕ → Result
  created : Option ℕ → Result

abbrev pub Answer : Request → Type 0
Answer (post_submission x language code) = Result

abbrev pub Handler : Type 0
Handler = Task Request Answer Form (Unit {0})

unfoldable pub initial : Form
initial = record {
  language = lit "cpp";
  code = [];
  is_submitting = false;
  error = none;
  success = false;
  visited = [];
}

-- Where the browser goes; the id 0 counts as missing.
unfoldable pub destination : Target → Option ℕ → Text
destination (practice i) (some (suc n)) = lit "/submissions/" ++ to_string (suc n)
destination (practice i) _ = lit "/problems/" ++ (to_string i ++ lit "/submissions/mine")
destination (contest c i) (some (suc n)) =
    lit "/contests/" ++ (to_string c ++ (lit "/submissions/" ++ to_string (suc n)))
destination (contest c i) _ = lit "/contests/" ++ (to_string c ++ lit "/submissions")

-- The message of a failure.
unfoldable pub failure : Target → Option ℕ → Text
failure (practice i) status = lit "Submission failed. Check your code and try again."
failure (contest c i) none = lit "Submission failed. Check your code and try again."
failure (contest c i) (some status) =
    if status == 403
    then lit "You must register for the contest before submitting."
    else if status == 400
    then lit "The contest is not currently active."
    else lit "Submission failed. Check your code and try again."

unfoldable pub submitted : Target → Result → Handler
unfolding destination failure
submitted x (created id) = do
  set (λ s. record s { success = true })
  set (λ s. record s { visited = destination x id ∷ s.visited })
submitted x (failed status) = set (λ s. record s { error = some (failure x status) })

unfoldable pub finish : Target → Result → Handler
unfolding submitted
finish x a = do submitted x a; set (λ s. record s { is_submitting = false })

unfoldable pub send : Target → Form → Bool → Handler
unfolding finish
send x s false = set (λ s. record s { error = some (lit "Code is required.") })
send x s true = do
  set (λ s. record s { is_submitting = true })
  set (λ s. record s { error = none })
  set (λ s. record s { success = false })
  finish x (← call (post_submission x s.language s.code))

unfoldable pub handle_submit : Target → Form → Handler
unfolding send
handle_submit x s = send x s (truthy (trim s.code))

-- What the form offers: the button is disabled while a submission is on its way.
pub data Event : Type 0 where
  submit : Event
  choose_language type_code : Text → Event

unfoldable pub enabled : Form → Event → Bool
enabled s submit = not s.is_submitting
enabled s _ = true

unfoldable pub handler : Target → Form → Event → Handler
handler x s submit = handle_submit x s
handler x s (choose_language l) = set (λ s. record s { language = l })
handler x s (type_code c) = set (λ s. record s { code = c })

pub record Offers (x : Target) (s : Form) (t : Handler) : Type 0 where
  pub event : Event
  pub is_enabled : enabled s event ≡ true
  pub runs : t ≡ handler x s event

-- The link that both forms show instead to who is not signed in.
abbrev pub log_in_link : Text
log_in_link = lit "/login"
