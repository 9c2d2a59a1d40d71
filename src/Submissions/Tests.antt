-- ===== src/Submissions/Tests.antt =====
-- The theorems on submissions at concrete inputs.
use jjudge.Prelude.{
  ℕ, ◌≡◌, refl, true, List, [], ◌∷◌, none, some, Option, Text, lit, ◌&&◌, if◌then◌else◌, text_eq,
  to_upper_case,
}
use jjudge.Async.Run.{Oracle}
use jjudge.Async.Schedule.{Page, start, here, next}
use jjudge.Async.{ret, await}
use jjudge.Submissions.{Submission, is_pending}
use jjudge.Submissions.Detail
use jjudge.Submissions.Detail.Polls.{IsPolling, Reach-IsPolling}
use jjudge.Submissions.Mine
use jjudge.Submissions.Results.{
  TestcaseResult, initial, has, has_details, toggle_set, toggle_row, click_row, details_of,
  result_row,
}
use jjudge.Submissions.Results.Clicks.{clicks, is_odd, details-clicks}
use jjudge.Submissions.Mine.Polls.{IsListPolling, Reach-IsListPolling}

abbrev submission : ℕ → Text → Option ℕ → Submission
submission i v t = record {
  id = i;
  problem_id = 1;
  user_id = none;
  username = none;
  language = none;
  verdict = some v;
  score = none;
  cpu_time = none;
  memory = none;
  tests_passed = none;
  tests_total = none;
  message = none;
  created_ms = t;
}

is_pending_test : is_pending (some (lit "judging")) ≡ true
unfolding is_pending lit text_eq to_upper_case
is_pending_test = refl

abbrev judging : Detail.Detail
judging = Detail.mount (submission 5 (lit "JUDGING") none)

-- The user opens the list of testcases.
abbrev opened : Page Detail.Request Detail.Answer Detail.Detail
opened = record { state = record judging { tc_expanded = true }; tasks = ret tt ∷ [] }

Reach-IsPolling_example : IsPolling opened.state
unfolding Detail.handler Detail.enabled Detail.mount
Reach-IsPolling_example = Reach-IsPolling (submission 5 (lit "JUDGING") none) opened (
    next here
      (start _ (record { event = Detail.click_testcases; is_enabled = refl; runs = refl }) refl))

abbrev session : Mine.Session
session = record { problem_id = some (lit "7"); token = some (lit "token"); user_id = some 3 }

-- The page asks for its list.
abbrev asked : Page Mine.Request Mine.Answer Mine.Mine
asked = record {
  state = Mine.mount;
  tasks = await (Mine.load_page (lit "7") 3 (lit "token")) Mine.loaded ∷ [];
}

Reach-IsListPolling_example : IsListPolling asked.state
unfolding Mine.handler Mine.load Mine.credentials Mine.load_for lit
Reach-IsListPolling_example =
    Reach-IsListPolling session asked
      (next here (start _ (record { event = Mine.arrive; runs = refl }) refl))

abbrev accept : Oracle Mine.Request Mine.Answer
accept h (Mine.load_page i u t) = some (none, some (submission 5 (lit "AC") (some 9) ∷ []))
accept h (Mine.list_submissions i u t) = some none

abbrev two : Option (List Submission)
two = some (submission 1 (lit "AC") none ∷ submission 2 (lit "WA") (some 9) ∷ [])

-- The result of a testcase whose input is shown.
abbrev result : ℕ → TestcaseResult
result i = record {
  testcase_id = i;
  verdict = some (lit "WA");
  cpu_time = some 12;
  memory = none;
  input = some (lit "1 2");
  expected_output = none;
  actual_output = none;
  error_message = none;
}

two_clicks_test :
    (click_row (result 1) 1 (click_row (result 2) 2 initial)).expanded_rows ≡ 2 ∷ 1 ∷ []
unfolding click_row toggle_row toggle_set has has_details initial
two_clicks_test = refl

details-clicks_example :
    (result_row (clicks result (2 ∷ 1 ∷ 2 ∷ []) initial) 1 (result 1)).details
    ≡ (if has_details (result 1) && is_odd 1 (2 ∷ 1 ∷ 2 ∷ []) then details_of (result 1) else [])
details-clicks_example = details-clicks result 1 (2 ∷ 1 ∷ 2 ∷ [])
