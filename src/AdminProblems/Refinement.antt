-- ===== src/AdminProblems/Refinement.antt =====
-- The page of administrators does what the one of managers does, over its own requests.
use jjudge.Prelude.{ℕ, ◌≡◌, List, [], map, Option, none, some, Text}
use jjudge.Async.{done, set}
use jjudge.Async.Run.{Oracle, run}
use jjudge.Async.Simulation.{Sim, rets, updates, awaits, Sim-bind, through, run-Sim}
use jjudge.ProblemEditor.{Problem, UploadMode, individual, zip, File, Editor}
use jjudge.ProblemEditor as Manager
use jjudge.ProblemEditor.Handlers as Managers
use jjudge.ProblemEditor.Handlers.{AuthToken, saved_status, fill_form}
use jjudge.ProblemEditor.Payload.{individual_form, zip_form}
use jjudge.AdminProblems.{
  Body, normalize_problems, Request, list_problems, get_problem, post_problem, post_zip,
  put_problem, put_zip, Answer, Handler,
}
use jjudge.AdminProblems.Handlers.{
  listed, load_problems, detailed, handle_edit, after_save, send_zip, send_individual, send,
  handle_submit,
}

-- The requests of managers, and the answers to them. The list is asked for at another address, and
-- read in another way.
abbrev pub counterpart : Manager.Request → Request
counterpart (Manager.list_problems t) = list_problems t
counterpart (Manager.get_problem t i) = get_problem t i
counterpart (Manager.post_problem t f) = post_problem t f
counterpart (Manager.post_zip t f) = post_zip t f
counterpart (Manager.put_problem t i f) = put_problem t i f
counterpart (Manager.put_zip t i f) = put_zip t i f

abbrev pub as_items : Option Body → Option (Option (List Problem))
as_items none = none
as_items (some b) = some (some (normalize_problems b))

abbrev pub as_manager : (r : Manager.Request) → Answer (counterpart r) → Manager.Answer r
as_manager (Manager.list_problems t) a = as_items a
as_manager (Manager.get_problem t i) a = a
as_manager (Manager.post_problem t f) a = a
as_manager (Manager.post_zip t f) a = a
as_manager (Manager.put_problem t i f) a = a
as_manager (Manager.put_zip t i f) a = a

abbrev pub Same : Manager.Handler → Handler → Type 0
Same t u = Sim counterpart as_manager t u

set-Same : (f : Editor → Editor) → Same (set f) (set f)
set-Same f = updates f done done (rets tt)

listed-Same : (a : Option Body) → Same (Managers.listed (as_items a)) (listed a)
unfolding Managers.listed listed
listed-Same none = set-Same _
listed-Same (some b) = set-Same _

pub load_problems-Same : (t : AuthToken) → Same (Managers.load_problems t) (load_problems t)
unfolding Managers.load_problems load_problems
load_problems-Same none = rets tt
load_problems-Same (some t) = updates _ _ _ (
    updates _ _ _ (
      awaits (Manager.list_problems t) _ _
        (λ a. Sim-bind counterpart as_manager _ _ _ _ (listed-Same a) (λ _. set-Same _))))

detailed-Same : (a : Option (Option Problem)) → Same (Managers.detailed a) (detailed a)
unfolding Managers.detailed detailed
detailed-Same none = set-Same _
detailed-Same (some p) = set-Same _

pub handle_edit-Same :
    (t : AuthToken) (p : Problem) → Same (Managers.handle_edit t p) (handle_edit t p)
unfolding Managers.handle_edit handle_edit
handle_edit-Same none p = set-Same _
handle_edit-Same (some t) p = updates _ _ _ (
    updates _ _ _ (
      updates _ _ _ (
        awaits (Manager.get_problem t p.id) _ _
          (λ a. Sim-bind counterpart as_manager _ _ _ _ (detailed-Same a) (λ _. set-Same _)))))

after_save-Same :
    (t : AuthToken) (i : Option ℕ) (a : Option (Unit {0}))
    → Same (Managers.after_save t i a) (after_save t i a)
unfolding Managers.after_save after_save
after_save-Same t i none = set-Same _
after_save-Same t i (some x) = updates _ _ _ (load_problems-Same t)

send_zip-Same :
    (t : Text) (s : Editor) (i : Option ℕ) (f : Option File)
    → Same (Managers.send_zip t s i f) (send_zip t s i f)
unfolding Managers.send_zip send_zip
send_zip-Same t s i none = updates _ _ _ (set-Same _)
send_zip-Same t s (some i) (some f) =
    awaits (Manager.put_zip t i (zip_form s f)) _ _ (after_save-Same (some t) (some i))
send_zip-Same t s none (some f) =
    awaits (Manager.post_zip t (zip_form s f)) _ _ (after_save-Same (some t) none)

send_individual-Same :
    (t : Text) (s : Editor) (i : Option ℕ)
    → Same (Managers.send_individual t s i) (send_individual t s i)
unfolding Managers.send_individual send_individual
send_individual-Same t s (some i) =
    awaits (Manager.put_problem t i (individual_form s)) _ _ (after_save-Same (some t) (some i))
send_individual-Same t s none =
    awaits (Manager.post_problem t (individual_form s)) _ _ (after_save-Same (some t) none)

send-Same : (t : Text) (s : Editor) (m : UploadMode) → Same (Managers.send t s m) (send t s m)
unfolding Managers.send send
send-Same t s zip = send_zip-Same t s s.editing_id s.zip_file
send-Same t s individual = send_individual-Same t s s.editing_id

pub handle_submit-Same :
    (t : AuthToken) (s : Editor) → Same (Managers.handle_submit t s) (handle_submit t s)
unfolding Managers.handle_submit handle_submit
handle_submit-Same none s = updates _ _ _ (updates _ _ _ (set-Same _))
handle_submit-Same (some t) s =
    updates _ _ _ (updates _ _ _ (updates _ _ _ (send-Same t s s.upload_mode)))

-- Run against the server `o`, the administrators' handler ends in the state of the managers', and
-- sends the counterparts of its requests.
abbrev pub Refines : Oracle Request Answer → Editor → Manager.Handler → Handler → Type 0
Refines o s t u =
    ((run o [] s u).state ≡ (run (through counterpart as_manager o) [] s t).state)
    × ((run o [] s u).sent ≡ map counterpart (run (through counterpart as_manager o) [] s t).sent)

-- On the page of administrators, loading, editing and submitting do what they do on the page of
-- managers, whatever the server answers: they end in the same state and send the same requests, but
-- for the list, which is asked for at another address and taken from any of the places where the
-- answer may have it.
pub admin-Refines :
    (o : Oracle Request Answer) (t : AuthToken) (s : Editor) (p : Problem)
    → Refines o s (Managers.load_problems t) (load_problems t)
      × Refines o s (Managers.handle_edit t p) (handle_edit t p)
      × Refines o s (Managers.handle_submit t s) (handle_submit t s)
admin-Refines o t s p = (
  run-Sim counterpart as_manager o [] s _ _ (load_problems-Same t),
  run-Sim counterpart as_manager o [] s _ _ (handle_edit-Same t p),
  run-Sim counterpart as_manager o [] s _ _ (handle_submit-Same t s),
)
