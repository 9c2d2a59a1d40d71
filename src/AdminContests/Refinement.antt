-- ===== src/AdminContests/Refinement.antt =====
-- The page of administrators does what the one of managers does, over its own requests.
use jjudge.Prelude.{ℕ, ◌≡◌, refl, List, [], ◌∷◌, map, Option, none, some, Text}
use jjudge.Async.{done, set}
use jjudge.Async.Run.{Oracle, run}
use jjudge.Async.Simulation.{Sim, rets, updates, awaits, Sim-bind, through, run-Sim}
use jjudge.ContestManager as Manager
use jjudge.ContestManager.{Contest, ContestProblem, Problem, Payload}
use jjudge.ContestManager.Handlers as Managers
use jjudge.ContestManager.Handlers.{AuthToken, reset_form, payload, addition}
use jjudge.AdminContests.{
  Request, list_contests, list_problems, post_contest, put_contest, get_contest_problems,
  post_contest_problem, delete_contest_problem, Answer, Handler,
}
use jjudge.AdminContests.Handlers.{
  listed, load_contests, known_problems, load_all_problems, after_save, save, send, handle_submit,
  shown_problems, load_contest_problems, open_problem_panel, after_add, add_to, handle_add_problem,
  after_remove, remove_from, handle_remove_problem,
}

-- The requests of managers, of which the two lists are asked for at other addresses.
abbrev pub counterpart : Manager.Request → Request
counterpart (Manager.list_contests t) = list_contests t
counterpart (Manager.list_problems t) = list_problems t
counterpart (Manager.post_contest t p) = post_contest t p
counterpart (Manager.put_contest t i p) = put_contest t i p
counterpart (Manager.get_contest_problems t i) = get_contest_problems t i
counterpart (Manager.post_contest_problem t i a) = post_contest_problem t i a
counterpart (Manager.delete_contest_problem t i j) = delete_contest_problem t i j

abbrev pub as_manager : (r : Manager.Request) → Answer (counterpart r) → Manager.Answer r
as_manager (Manager.list_contests t) a = a
as_manager (Manager.list_problems t) a = a
as_manager (Manager.post_contest t p) a = a
as_manager (Manager.put_contest t i p) a = a
as_manager (Manager.get_contest_problems t i) a = a
as_manager (Manager.post_contest_problem t i a') a = a
as_manager (Manager.delete_contest_problem t i j) a = a

abbrev pub Same : Manager.Handler → Handler → Type 0
Same t u = Sim counterpart as_manager t u

set-Same : (f : Manager.Manager → Manager.Manager) → Same (set f) (set f)
set-Same f = updates f done done (rets tt)

listed-Same : (a : Option (Option (List Contest))) → Same (Managers.listed a) (listed a)
unfolding Managers.listed listed
listed-Same none = set-Same _
listed-Same (some items) = set-Same _

load_contests-Same : (t : AuthToken) → Same (Managers.load_contests t) (load_contests t)
unfolding Managers.load_contests load_contests
load_contests-Same none = rets tt
load_contests-Same (some t) = updates _ _ _ (
    updates _ _ _ (
      awaits (Manager.list_contests t) _ _
        (λ a. Sim-bind counterpart as_manager _ _ _ _ (listed-Same a) (λ _. set-Same _))))

known_problems-Same :
    (a : Option (Option (List Problem))) → Same (Managers.known_problems a) (known_problems a)
unfolding Managers.known_problems known_problems
known_problems-Same none = rets tt
known_problems-Same (some items) = set-Same _

load_all_problems-Same : (t : AuthToken) → Same (Managers.load_all_problems t) (load_all_problems t)
unfolding Managers.load_all_problems load_all_problems
load_all_problems-Same none = rets tt
load_all_problems-Same (some t) = awaits (Manager.list_problems t) _ _ known_problems-Same

shown_problems-Same :
    (a : Option (Option (List ContestProblem)))
    → Same (Managers.shown_problems a) (shown_problems a)
unfolding Managers.shown_problems shown_problems
shown_problems-Same none = set-Same _
shown_problems-Same (some items) = set-Same _

load_contest_problems-Same :
    (t : AuthToken) (i : ℕ) → Same (Managers.load_contest_problems t i) (load_contest_problems t i)
unfolding Managers.load_contest_problems load_contest_problems
load_contest_problems-Same none i = rets tt
load_contest_problems-Same (some t) i =
    awaits (Manager.get_contest_problems t i) _ _ shown_problems-Same

open_problem_panel-Same :
    (t : AuthToken) (i : ℕ) → Same (Managers.open_problem_panel t i) (open_problem_panel t i)
unfolding Managers.open_problem_panel open_problem_panel
open_problem_panel-Same t i = updates _ _ _ (updates _ _ _ (load_contest_problems-Same t i))

after_add-Same :
    (t : AuthToken) (i : ℕ) (a : Option (Unit {0}))
    → Same (Managers.after_add t i a) (after_add t i a)
unfolding Managers.after_add after_add
after_add-Same t i none = set-Same _
after_add-Same t i (some x) = updates _ _ _ (updates _ _ _ (load_contest_problems-Same t i))

add_to-Same :
    (t : Text) (m : Option ℕ) (s : Manager.Manager) → Same (Managers.add_to t m s) (add_to t m s)
unfolding Managers.add_to add_to
add_to-Same t none s = rets tt
add_to-Same t (some i) s =
    updates _ _ _
      (awaits (Manager.post_contest_problem t i (addition s)) _ _ (after_add-Same (some t) i))

handle_add_problem-Same :
    (t : AuthToken) (s : Manager.Manager)
    → Same (Managers.handle_add_problem t s) (handle_add_problem t s)
unfolding Managers.handle_add_problem handle_add_problem
handle_add_problem-Same none s = rets tt
handle_add_problem-Same (some t) s = add_to-Same t s.managing_contest_id s

after_remove-Same :
    (t : AuthToken) (i : ℕ) (a : Option (Unit {0}))
    → Same (Managers.after_remove t i a) (after_remove t i a)
unfolding Managers.after_remove after_remove
after_remove-Same t i none = set-Same _
after_remove-Same t i (some x) = load_contest_problems-Same t i

remove_from-Same :
    (t : Text) (m : Option ℕ) (j : ℕ) → Same (Managers.remove_from t m j) (remove_from t m j)
unfolding Managers.remove_from remove_from
remove_from-Same t none j = rets tt
remove_from-Same t (some i) j =
    awaits (Manager.delete_contest_problem t i j) _ _ (after_remove-Same (some t) i)

handle_remove_problem-Same :
    (t : AuthToken) (s : Manager.Manager) (j : ℕ)
    → Same (Managers.handle_remove_problem t s j) (handle_remove_problem t s j)
unfolding Managers.handle_remove_problem handle_remove_problem
handle_remove_problem-Same none s j = rets tt
handle_remove_problem-Same (some t) s j = remove_from-Same t s.managing_contest_id j

-- Run against the server `o`, the administrators' handler ends in the state of the managers', and
-- sends the counterparts of its requests.
abbrev pub RefinesFrom :
    Oracle Request Answer
    → List Manager.Request
    → Manager.Manager
    → Manager.Handler
    → Handler
    → Type 0
RefinesFrom o h s t u =
    ((run o (map counterpart h) s u).state ≡ (run (through counterpart as_manager o) h s t).state)
    × ((run o (map counterpart h) s u).sent
        ≡ map counterpart (run (through counterpart as_manager o) h s t).sent)

abbrev pub Refines : Oracle Request Answer → Manager.Manager → Manager.Handler → Handler → Type 0
Refines o s t u = RefinesFrom o [] s t u

module _ (o : Oracle Request Answer) where
  -- The two messages differ, and `reset_form` clears both.
  after_save-Refines :
      (h : List Manager.Request) (s : Manager.Manager) (t : AuthToken) (i : Option ℕ)
      (a : Option (Unit {0}))
      → RefinesFrom o h s (Managers.after_save t i a) (after_save t i a)
  unfolding Managers.after_save after_save reset_form
  after_save-Refines h s t i none = (refl, refl)
  after_save-Refines h s t i (some x) =
      run-Sim counterpart as_manager o h
        (reset_form (record s { status = some (Managers.saved_status i) })) _ _
        (load_contests-Same t)

  save-Refines :
      (s : Manager.Manager) (t : Text) (i : Option ℕ) (p : Payload)
      → RefinesFrom o [] s (Managers.save t i p) (save t i p)
  unfolding Managers.save save
  save-Refines s t none p =
      after_save-Refines (Manager.post_contest t p ∷ []) s (some t) none (o [] (post_contest t p))
  save-Refines s t (some i) p =
      after_save-Refines (Manager.put_contest t i p ∷ []) s (some t) (some i)
        (o [] (put_contest t i p))

  send-Refines :
      (s : Manager.Manager) (t : Text) (i : Option ℕ) (p : Option Payload)
      → RefinesFrom o [] s (Managers.send t i p) (send t i p)
  unfolding Managers.send send
  send-Refines s t i none = (refl, refl)
  send-Refines s t i (some p) = save-Refines s t i p

  handle_submit-Refines :
      (iso : Text → Option Text) (t : AuthToken) (u s : Manager.Manager)
      → Refines o u (Managers.handle_submit iso t s) (handle_submit iso t s)
  unfolding Managers.handle_submit handle_submit
  handle_submit-Refines iso none u s = (refl, refl)
  handle_submit-Refines iso (some t) u s =
      send-Refines (record u { status = none; error = none }) t s.editing_id (payload iso s)

  -- On the page of administrators, loading the lists, opening a contest's problems, adding one to it,
  -- removing one from it and saving a contest do what they do on the page of managers, whatever the
  -- server answers: they end in the same state and send the same requests, but for the two lists,
  -- which are asked for at other addresses. This holds although the messages for a saved contest
  -- differ, since both are cleared at once.
  pub admin_contests-Refines :
      (iso : Text → Option Text) (t : AuthToken) (u s : Manager.Manager) (i : ℕ)
      → Refines o u (Managers.load_contests t) (load_contests t)
        × Refines o u (Managers.load_all_problems t) (load_all_problems t)
        × Refines o u (Managers.open_problem_panel t i) (open_problem_panel t i)
        × Refines o u (Managers.handle_add_problem t s) (handle_add_problem t s)
        × Refines o u (Managers.handle_remove_problem t s i) (handle_remove_problem t s i)
        × Refines o u (Managers.handle_submit iso t s) (handle_submit iso t s)
  admin_contests-Refines iso t u s i = (
    run-Sim counterpart as_manager o [] u _ _ (load_contests-Same t),
    run-Sim counterpart as_manager o [] u _ _ (load_all_problems-Same t),
    run-Sim counterpart as_manager o [] u _ _ (open_problem_panel-Same t i),
    run-Sim counterpart as_manager o [] u _ _ (handle_add_problem-Same t s),
    run-Sim counterpart as_manager o [] u _ _ (handle_remove_problem-Same t s i),
    handle_submit-Refines iso t u s,
  )
