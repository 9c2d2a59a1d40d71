-- ===== src/Approvals/Tests.antt =====
-- The theorem on the approvals at a concrete input.
use jjudge.Prelude.{◌≡◌, refl, none, some, [], lit, to_string}
use jjudge.Async.Run.{Oracle, run}
use jjudge.Approvals.{
  Request, get_pending, post_decision, Answer, initial, problem, contest, approve, reject,
  decided_status, approve_problem, reject_problem, approve_contest, reject_contest,
}
use jjudge.Approvals.Decisions.{Decided, approve_problem-Decided}

-- A server that takes everything.
abbrev accept : Oracle Request Answer
accept h (get_pending t) = some (none, none)
accept h (post_decision t x i d) = some tt

decided_status_test : decided_status contest 12 reject ≡ lit "Contest #12 rejected."
unfolding decided_status lit to_string
decided_status_test = refl

approve-Decided_example :
    Decided accept
      (lit "token")
      problem
      approve
      12
      initial
      (run accept [] initial (approve_problem (some (lit "token")) 12))
    × Decided accept
        (lit "token")
        problem
        reject
        12
        initial
        (run accept [] initial (reject_problem (some (lit "token")) 12))
    × Decided accept
        (lit "token")
        contest
        approve
        12
        initial
        (run accept [] initial (approve_contest (some (lit "token")) 12))
    × Decided accept
        (lit "token")
        contest
        reject
        12
        initial
        (run accept [] initial (reject_contest (some (lit "token")) 12))
approve-Decided_example = approve_problem-Decided accept initial (lit "token") 12
