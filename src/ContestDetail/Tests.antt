-- ===== src/ContestDetail/Tests.antt =====
-- The theorem on the page of a contest at a concrete input.
use jjudge.Prelude.{none, some, [], Text, Option, lit}
use jjudge.Async.Run.{Oracle, run}
use jjudge.ContestDetail.{
  Request, get_contest, get_contest_problems, list_problems, put_contest, post_contest_problem,
  delete_contest_problem, Answer, initial, payload, handle_update,
}
use jjudge.ContestDetail.Update.{Updated, handle_update-Updated}

-- A server that refuses everything.
abbrev refuse : Oracle Request Answer
refuse h (get_contest t i) = none
refuse h (get_contest_problems t i) = none
refuse h (list_problems t) = none
refuse h (put_contest t i p) = none
refuse h (post_contest_problem t i j ordinal points) = none
refuse h (delete_contest_problem t i j) = none

-- Every text is read as one and the same time.
abbrev iso : Text → Option Text
iso s = some (lit "2026-01-31T10:00:00.000Z")

handle_update-Updated_example :
    Updated
      (payload iso initial)
      refuse
      (lit "token")
      7
      initial
      (run refuse [] initial (handle_update iso (some (lit "token")) 7 initial))
handle_update-Updated_example = handle_update-Updated iso refuse initial (lit "token") 7
