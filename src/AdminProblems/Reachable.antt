-- ===== src/AdminProblems/Reachable.antt =====
-- frontend/src/app/admin/problems/page.tsx: the form of administrators stays valid. What the page has
-- in common with that of managers is taken from there.
use jjudge.Prelude.{ℕ, ◌≡◌, Bool, true, false, [], Option, none, some, Text}
use jjudge.Async.Schedule.{Page, Reach, Reach-Holds, Keeps, KeepsFrom, Keeps-KeepsFrom}
use jjudge.Async.Simulation.{Keeps-Sim}
use jjudge.ProblemEditor.{Editor}
use jjudge.ProblemEditor.Handlers.{AuthToken, initial}
use jjudge.ProblemEditor.Events as Form
use jjudge.ProblemEditor.Ids.{IsValid, reset_form-IsValid}
use jjudge.ProblemEditor.Reachable as Managers
use jjudge.AdminProblems.{Request, Answer, Handler}
use jjudge.AdminProblems.Handlers.{
  load_problems, reset_if, is_edited, deleted, delete_confirmed, handle_delete,
}
use jjudge.AdminProblems.Events.{Event, form, click_delete, enabled, handler, Offers}
use jjudge.AdminProblems.Refinement.{
  counterpart, as_manager, load_problems-Same, handle_edit-Same, handle_submit-Same,
}

load_problems-Keeps : (t : AuthToken) → Keeps IsValid (load_problems t)
load_problems-Keeps t =
    Keeps-Sim counterpart as_manager IsValid _ _ (load_problems-Same t)
      (Managers.load_problems-Keeps t)

reset_if-IsValid : (b : Bool) (s : Editor) → IsValid s → IsValid (reset_if b s)
unfolding reset_if
reset_if-IsValid true s h = reset_form-IsValid s
reset_if-IsValid false s h = h

deleted-Keeps :
    (t : Text) (i : Option ℕ) (id : ℕ) (a : Option (Unit {0})) → Keeps IsValid (deleted t i id a)
unfolding deleted
deleted-Keeps t i id none = (λ s h. h, tt)
deleted-Keeps t i id (some x) = (reset_if-IsValid (is_edited i id), load_problems-Keeps (some t))

delete_confirmed-Keeps :
    (t : Text) (s : Editor) (id : ℕ) (b : Bool) → Keeps IsValid (delete_confirmed t s id b)
unfolding delete_confirmed
delete_confirmed-Keeps t s id false = tt
delete_confirmed-Keeps t s id true = (λ s h. h, deleted-Keeps t s.editing_id id)

handle_delete-Keeps :
    (t : AuthToken) (s : Editor) (id : ℕ) (b : Bool) → Keeps IsValid (handle_delete t s id b)
unfolding handle_delete
handle_delete-Keeps none s id b = (λ s h. h, tt)
handle_delete-Keeps (some t) s id b = delete_confirmed-Keeps t s id b

handler-KeepsFrom :
    (t : AuthToken) (s : Editor) (e : Event)
    → IsValid s
    → enabled t s e ≡ true
    → KeepsFrom IsValid s (handler t s e)
unfolding handler enabled
handler-KeepsFrom t s (form Form.mount) h k = Keeps-KeepsFrom IsValid s _ (load_problems-Keeps t) h
handler-KeepsFrom t s (form Form.submit) h k =
    Keeps-KeepsFrom IsValid s _
      (Keeps-Sim counterpart as_manager IsValid _ _ (handle_submit-Same t s)
        (Managers.handle_submit-Keeps t s))
      h
handler-KeepsFrom t s (form (Form.edit p)) h k =
    Keeps-KeepsFrom IsValid s _
      (Keeps-Sim counterpart as_manager IsValid _ _ (handle_edit-Same t p)
        (Managers.handle_edit-Keeps t p))
      h
handler-KeepsFrom t s (form e) h k = (Managers.change-IsValid t s e h k, tt)
handler-KeepsFrom t s (click_delete id b) h k =
    Keeps-KeepsFrom IsValid s _ (handle_delete-Keeps t s id b) h

Offers-KeepsFrom :
    (t : AuthToken) (s : Editor) (u : Handler) → IsValid s → Offers t s u → KeepsFrom IsValid s u
Offers-KeepsFrom t s u h o = rw o.runs (handler-KeepsFrom t s o.event h o.is_enabled)

-- On the page of administrators too, deletions included, the form has a group in every state that
-- the page can come to, the ids of the groups are distinct, and so are the ids of the testcases of each
-- group.
pub admin_Reach-IsValid :
    (t : AuthToken) (q : Page Request Answer Editor)
    → Reach (Offers t) (record { state = initial; tasks = [] }) q
    → IsValid q.state
admin_Reach-IsValid t q r =
    (Reach-Holds (Offers t) IsValid (Offers-KeepsFrom t) _ q r
      (record { now = Managers.initial-IsValid; pending = tt })).now
