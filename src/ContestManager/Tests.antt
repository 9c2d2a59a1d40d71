-- ===== src/ContestManager/Tests.antt =====
-- The theorems on the contest planner at concrete inputs.
use jjudge.Prelude.{◌≡◌, refl, [], ◌∷◌, ◌++◌, Option, none, some, Text, lit, take}
use jjudge.Async.Run.{Oracle, run}
use jjudge.ContestManager.{
  Contest, Manager, Request, list_contests, list_problems, post_contest, put_contest,
  get_contest_problems, post_contest_problem, delete_contest_problem, Answer,
}
use jjudge.ContestManager.Handlers.{initial, handle_edit, handle_submit}
use jjudge.ContestManager.Submit.{
  Submitted, written, Finished, unchanged, handle_submit-Submitted, handle_edit-submit,
}

-- A server that takes everything.
abbrev accept : Oracle Request Answer
accept h (list_contests t) = some none
accept h (list_problems t) = some none
accept h (post_contest t p) = some tt
accept h (put_contest t i p) = some tt
accept h (get_contest_problems t i) = some none
accept h (post_contest_problem t i a) = some tt
accept h (delete_contest_problem t i j) = some tt

-- `new Date(text).toISOString()` where the local time is UTC, for texts that end in minutes.
abbrev iso_utc : Text → Option Text
iso_utc [] = none
iso_utc (c ∷ s) = some ((c ∷ s) ++ lit ":00.000Z")

abbrev contest : Contest
contest = record {
  id = 7;
  title = lit "Weekly";
  description = none;
  start_time = lit "2026-01-31T10:00:00Z";
  end_time = lit "2026-01-31T12:00:00Z";
  scoring_type = lit "icpc";
  visibility = lit "public";
  approval_status = lit "pending";
}

abbrev managing : Manager
managing = record initial { managing_contest_id = some 7; add_problem_id = lit "3" }

abbrev filled : Manager
filled = record initial {
  editing_id = some 7;
  title = lit "Weekly";
  start_time = lit "2026-01-31T10:00";
  end_time = lit "2026-01-31T12:00";
}

handle_submit-Submitted_example :
    Submitted accept
      (lit "token")
      filled
      (written filled (iso_utc filled.start_time) (iso_utc filled.end_time))
      (run accept [] filled (handle_submit iso_utc (some (lit "token")) filled))
handle_submit-Submitted_example = handle_submit-Submitted iso_utc accept filled (lit "token")

iso_utc_test : iso_utc (take 16 contest.start_time) ≡ some (lit "2026-01-31T10:00:00.000Z")
unfolding lit
iso_utc_test = refl

iso_utc_end_test : iso_utc (take 16 contest.end_time) ≡ some (lit "2026-01-31T12:00:00.000Z")
unfolding lit
iso_utc_end_test = refl

handle_edit-submit_example :
    Finished accept
      (lit "token")
      (handle_edit contest initial)
      (put_contest
        (lit "token")
        7
        (unchanged contest (lit "2026-01-31T10:00:00.000Z") (lit "2026-01-31T12:00:00.000Z")))
      (run accept []
        (handle_edit contest initial)
        (handle_submit iso_utc (some (lit "token")) (handle_edit contest initial)))
handle_edit-submit_example =
    handle_edit-submit iso_utc accept initial (lit "token") contest (lit "2026-01-31T10:00:00.000Z")
      (lit "2026-01-31T12:00:00.000Z") iso_utc_test iso_utc_end_test
