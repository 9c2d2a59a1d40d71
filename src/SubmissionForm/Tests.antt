-- ===== src/SubmissionForm/Tests.antt =====
-- The theorems on the forms at concrete inputs.
use jjudge.Prelude.{◌≡◌, refl, true, [], ◌∷◌, some, lit, trim, to_string}
use jjudge.Async.{await}
use jjudge.Async.Run.{Oracle}
use jjudge.Async.Schedule.{Page, here, next, start}
use jjudge.SubmissionForm.{
  practice, contest, Form, Request, post_submission, Answer, failed, initial, destination, finish,
  send, handle_submit, submit, handler, enabled,
}
use jjudge.SubmissionForm.Once.{in_flight, Reach-in_flight}

abbrev solution : Form
solution = record initial { code = lit "print(1)" }

destination_test : destination (contest 3 7) (some 12) ≡ lit "/contests/3/submissions/12"
unfolding destination lit to_string
destination_test = refl

-- A server that knows of no registration for the contest.
abbrev refuse : Oracle Request Answer
refuse h (post_submission x language code) = failed (some 403)

-- The page after a click.
abbrev sent : Page Request Answer Form
sent = record {
  state = record solution { is_submitting = true };
  tasks =
      await (post_submission (practice 7) (lit "cpp") (lit "print(1)")) (finish (practice 7)) ∷ [];
}

Reach-in_flight_example : in_flight sent.tasks ≡ 1
unfolding initial handler enabled handle_submit send lit trim
Reach-in_flight_example =
    Reach-in_flight (practice 7) solution sent refl
      (next here (start _ (record { event = submit; is_enabled = refl; runs = refl }) refl))
