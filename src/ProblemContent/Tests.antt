-- ===== src/ProblemContent/Tests.antt =====
-- The page of a problem at concrete answers.
use jjudge.Prelude.{◌≡◌, refl, [], some, lit}
use jjudge.Async.Run.{Oracle, run}
use jjudge.ProblemContent.{
  Request, get_problem, Answer, failed, initial, load, loaded, set_not_found, view, view_of,
  loading, memory_mb,
}

memory_mb_test : memory_mb (some 268_435_456) ≡ 256
unfolding memory_mb
memory_mb_test = refl

-- A server that is down.
abbrev down : Oracle Request Answer
down h (get_problem header id) = failed (some 503)

down_test : view (run down [] initial (load (some (lit "token")) (lit "7"))).state ≡ loading
unfolding load loaded set_not_found view view_of initial
down_test = refl
