-- ===== src/ContestManager/Problems.antt =====
-- frontend/src/app/manager/contests/page.tsx: the panel of a contest's problems, for every way in
-- which the server may answer.
use jjudge.Prelude.{Bool, true, false, ℕ, ◌≡◌, refl, List, [], ◌∷◌, Option, none, some, Text, lit}
use jjudge.Async.Run.{Oracle, Outcome, run, is_taken}
use jjudge.ContestManager.{
  ContestProblem, Manager, Request, get_contest_problems, post_contest_problem,
  delete_contest_problem, Answer,
}
use jjudge.ContestManager.Handlers.{
  shown_problems, load_contest_problems, open_problem_panel, addition, after_add, add_to,
  handle_add_problem, after_remove, remove_from, handle_remove_problem,
}

-- The problems that an answer gives; a failure gives none.
abbrev pub problems_in : Option (Option (List ContestProblem)) → List ContestProblem
problems_in none = []
problems_in (some none) = []
problems_in (some (some ps)) = ps

-- After the requests `h`, the problems of contest `i` are asked for, and the panel shows them in the
-- state `u`.
abbrev pub Refreshed :
    Oracle Request Answer
    → List Request
    → Text
    → ℕ
    → Manager
    → Outcome Request Manager (Unit {0})
    → Type 0
Refreshed o h t i u out =
    (out.sent ≡ get_contest_problems t i ∷ h)
    × (out.state ≡ record u { contest_problems = problems_in (o h (get_contest_problems t i)) })

shown_problems_lem :
    (o : Oracle Request Answer) (h : List Request) (u : Manager)
    (a : Option (Option (List ContestProblem)))
    → let out = run o h u (shown_problems a) in
      (out.sent ≡ h) × (out.state ≡ record u { contest_problems = problems_in a })
unfolding shown_problems
shown_problems_lem o h u none = (refl, refl)
shown_problems_lem o h u (some none) = (refl, refl)
shown_problems_lem o h u (some (some ps)) = (refl, refl)

load_contest_problems_lem :
    (o : Oracle Request Answer) (h : List Request) (u : Manager) (t : Text) (i : ℕ)
    → Refreshed o h t i u (run o h u (load_contest_problems (some t) i))
unfolding load_contest_problems
load_contest_problems_lem o h u t i =
    shown_problems_lem o (get_contest_problems t i ∷ h) u (o h (get_contest_problems t i))

-- Opening the panel of a contest asks for the problems of that contest and of no other, and shows
-- what the server answers, or no problem where it fails.
pub open_problem_panel-Refreshed :
    (o : Oracle Request Answer) (s : Manager) (t : Text) (i : ℕ)
    → Refreshed o [] t i
        (record s { managing_contest_id = some i; problem_status = none })
        (run o [] s (open_problem_panel (some t) i))
unfolding open_problem_panel
open_problem_panel-Refreshed o s t i =
    load_contest_problems_lem o []
      (record s { managing_contest_id = some i; problem_status = none }) t i

-- What an addition and a removal for contest `i` come to, given whether the request is taken: the
-- panel shows the contest's problems anew; or only the message changes.
abbrev pub Added :
    Bool → Oracle Request Answer → Text → ℕ → Manager → Outcome Request Manager (Unit {0}) → Type 0
Added true o t i s out =
    Refreshed o (post_contest_problem t i (addition s) ∷ []) t i
      (record s { problem_status = some (lit "Problem added."); add_problem_id = [] }) out
Added false o t i s out =
    (out.sent ≡ post_contest_problem t i (addition s) ∷ [])
    × (out.state ≡ record s { problem_status = some (lit "Failed to add problem.") })

abbrev pub Removed :
    Bool
    → Oracle Request Answer
    → Text
    → ℕ
    → ℕ
    → Manager
    → Outcome Request Manager (Unit {0})
    → Type 0
Removed true o t i j s out = Refreshed o (delete_contest_problem t i j ∷ []) t i s out
Removed false o t i j s out =
    (out.sent ≡ delete_contest_problem t i j ∷ [])
    × (out.state ≡ record s { problem_status = some (lit "Failed to remove problem.") })

after_add_lem :
    (o : Oracle Request Answer) (s : Manager) (t : Text) (i : ℕ) (a : Option (Unit {0}))
    → Added (is_taken a) o t i s (
        run o
          (post_contest_problem t i (addition s) ∷ [])
          (record s { problem_status = none })
          (after_add (some t) i a))
unfolding after_add
after_add_lem o s t i none = (refl, refl)
after_add_lem o s t i (some x) =
    load_contest_problems_lem o (post_contest_problem t i (addition s) ∷ [])
      (record s { problem_status = some (lit "Problem added."); add_problem_id = [] }) t i

after_remove_lem :
    (o : Oracle Request Answer) (s : Manager) (t : Text) (i j : ℕ) (a : Option (Unit {0}))
    → Removed
        (is_taken a)
        o
        t
        i
        j
        s
        (run o (delete_contest_problem t i j ∷ []) s (after_remove (some t) i a))
unfolding after_remove
after_remove_lem o s t i j none = (refl, refl)
after_remove_lem o s t i j (some x) =
    load_contest_problems_lem o (delete_contest_problem t i j ∷ []) s t i

-- What the two handlers come to, by the contest whose panel is open: with none open nothing happens.
abbrev pub AddedTo :
    Oracle Request Answer → Text → Option ℕ → Manager → Outcome Request Manager (Unit {0}) → Type 0
AddedTo o t none s out = (out.sent ≡ []) × (out.state ≡ s)
AddedTo o t (some i) s out =
    Added (is_taken (o [] (post_contest_problem t i (addition s)))) o t i s out

abbrev pub RemovedFrom :
    Oracle Request Answer
    → Text
    → Option ℕ
    → ℕ
    → Manager
    → Outcome Request Manager (Unit {0})
    → Type 0
RemovedFrom o t none j s out = (out.sent ≡ []) × (out.state ≡ s)
RemovedFrom o t (some i) j s out =
    Removed (is_taken (o [] (delete_contest_problem t i j))) o t i j s out

add_to_lem :
    (o : Oracle Request Answer) (s : Manager) (t : Text) (m : Option ℕ)
    → AddedTo o t m s (run o [] s (add_to t m s))
unfolding add_to
add_to_lem o s t none = (refl, refl)
add_to_lem o s t (some i) = after_add_lem o s t i (o [] (post_contest_problem t i (addition s)))

remove_from_lem :
    (o : Oracle Request Answer) (s : Manager) (t : Text) (m : Option ℕ) (j : ℕ)
    → RemovedFrom o t m j s (run o [] s (remove_from t m j))
unfolding remove_from
remove_from_lem o s t none j = (refl, refl)
remove_from_lem o s t (some i) j = after_remove_lem o s t i j (o [] (delete_contest_problem t i j))

-- Whatever the server answers, a problem is added to the contest whose panel is open and removed from
-- it, and from no other: each handler sends its one request, and where that succeeds it lists the
-- problems of that contest and shows what the server answers, all else but the messages and the
-- chosen problem being as it was; where it fails only the message changes; with no panel open nothing
-- is sent and nothing changes.
pub handle_problem_lem :
    (o : Oracle Request Answer) (s : Manager) (t : Text) (j : ℕ)
    → AddedTo o t s.managing_contest_id s (run o [] s (handle_add_problem (some t) s))
      × RemovedFrom o t s.managing_contest_id j s (run o [] s (handle_remove_problem (some t) s j))
unfolding handle_add_problem handle_remove_problem
handle_problem_lem o s t j =
    (add_to_lem o s t s.managing_contest_id, remove_from_lem o s t s.managing_contest_id j)
