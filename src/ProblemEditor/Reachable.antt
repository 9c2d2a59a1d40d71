-- ===== src/ProblemEditor/Reachable.antt =====
-- frontend/src/app/manager/problems/page.tsx: the form stays valid, whatever the user does and
-- whenever the answers come.
use jjudge.Prelude.{ℕ, ◌≡◌, refl, true, [], Option, none, some, Text, ltb→lt}
use jjudge.Async.Schedule.{Page, Reach, Reach-Holds, Keeps, KeepsFrom, Keeps-KeepsFrom}
use jjudge.ProblemEditor.{
  Problem, Editor, Request, Answer, Handler, UploadMode, individual, zip, File,
}
use jjudge.ProblemEditor.Handlers.{
  AuthToken, initial, load_problems, handle_edit, handle_submit, send, send_zip, send_individual,
  after_save,
}
use jjudge.ProblemEditor.Events.{
  Event, mount, submit, cancel, click_add_group, edit, type_group_name, type_points,
  click_remove_group, click_add_testcase, click_remove_testcase, choose_input, choose_output,
  enabled, change, handler, Offers,
}
use jjudge.ProblemEditor.Ids.{
  IsValid, one_group-IsValid, add_group-IsValid, remove_group-IsValid, relabel-IsValid,
  add_testcase-IsValid, remove_testcase-IsValid, update_testcase-IsValid, fill_form-IsValid,
  reset_form-IsValid,
}

pub load_problems-Keeps : (token : AuthToken) → Keeps IsValid (load_problems token)
unfolding load_problems
load_problems-Keeps none = tt
load_problems-Keeps (some t) = (
  λ s h. h,
  (λ s h. h, elim [ none ↦ (λ s h. h, (λ s h. h, tt)) | some x ↦ (λ s h. h, (λ s h. h, tt)) ]),
)

pub handle_edit-Keeps : (token : AuthToken) (p : Problem) → Keeps IsValid (handle_edit token p)
unfolding handle_edit
handle_edit-Keeps none p = (λ s h. h, tt)
handle_edit-Keeps (some t) p = (
  λ s h. h,
  (
    λ s h. h,
    (
      λ s h. h,
      elim [
        | none ↦ (λ s h. h, (λ s h. h, tt))
        | some x ↦ (λ s h. fill_form-IsValid x s, (λ s h. h, tt))
      ],
    ),
  ),
)

after_save-Keeps :
    (token : AuthToken) (i : Option ℕ) (a : Option (Unit {0}))
    → Keeps IsValid (after_save token i a)
unfolding after_save
after_save-Keeps token i none = (λ s h. h, tt)
after_save-Keeps token i (some x) = (λ s h. h, load_problems-Keeps token)

send_zip-Keeps :
    (t : Text) (s : Editor) (i : Option ℕ) (f : Option File) → Keeps IsValid (send_zip t s i f)
unfolding send_zip
send_zip-Keeps t s i none = (λ s h. h, (λ s h. h, tt))
send_zip-Keeps t s (some i) (some f) = after_save-Keeps (some t) (some i)
send_zip-Keeps t s none (some f) = after_save-Keeps (some t) none

send_individual-Keeps :
    (t : Text) (s : Editor) (i : Option ℕ) → Keeps IsValid (send_individual t s i)
unfolding send_individual
send_individual-Keeps t s (some i) = after_save-Keeps (some t) (some i)
send_individual-Keeps t s none = after_save-Keeps (some t) none

send-Keeps : (t : Text) (s : Editor) (m : UploadMode) → Keeps IsValid (send t s m)
unfolding send
send-Keeps t s zip = send_zip-Keeps t s s.editing_id s.zip_file
send-Keeps t s individual = send_individual-Keeps t s s.editing_id

pub handle_submit-Keeps : (token : AuthToken) (s : Editor) → Keeps IsValid (handle_submit token s)
unfolding handle_submit
handle_submit-Keeps none s = (λ s h. h, (λ s h. h, (λ s h. h, tt)))
handle_submit-Keeps (some t) s = (λ s h. h, (λ s h. h, (λ s h. h, send-Keeps t s s.upload_mode)))

-- An event that only changes the form keeps it valid, where the page offers it.
pub change-IsValid :
    (token : AuthToken) (s : Editor) (e : Event)
    → IsValid s
    → enabled token s e ≡ true
    → IsValid (change e s)
unfolding change enabled
change-IsValid token s cancel h k = reset_form-IsValid s
change-IsValid token s click_add_group h k = add_group-IsValid s h
change-IsValid token s (click_remove_group g) h k = remove_group-IsValid g s (ltb→lt _ _ k) h
change-IsValid token s (click_add_testcase g) h k = add_testcase-IsValid g s h
change-IsValid token s (click_remove_testcase g t) h k = remove_testcase-IsValid g t s h
change-IsValid token s (choose_input g t f) h k =
    update_testcase-IsValid g t (λ c. record c { in_file = f }) s (λ t. refl) h
change-IsValid token s (choose_output g t f) h k =
    update_testcase-IsValid g t (λ c. record c { out_file = f }) s (λ t. refl) h
change-IsValid token s (type_group_name g x) h k =
    relabel-IsValid g (λ c. record c { name = x }) s (λ g. refl) (λ g v. v) h
change-IsValid token s (type_points g x) h k =
    relabel-IsValid g (λ c. record c { points = x }) s (λ g. refl) (λ g v. v) h
change-IsValid token s _ h k = h

-- Whatever event the page offers, its handler keeps the form valid.
handler-KeepsFrom :
    (token : AuthToken) (s : Editor) (e : Event)
    → IsValid s
    → enabled token s e ≡ true
    → KeepsFrom IsValid s (handler token s e)
unfolding handler
handler-KeepsFrom token s mount h k = Keeps-KeepsFrom IsValid s _ (load_problems-Keeps token) h
handler-KeepsFrom token s submit h k = Keeps-KeepsFrom IsValid s _ (handle_submit-Keeps token s) h
handler-KeepsFrom token s (edit p) h k = Keeps-KeepsFrom IsValid s _ (handle_edit-Keeps token p) h
handler-KeepsFrom token s e h k = (change-IsValid token s e h k, tt)

pub initial-IsValid : IsValid initial
unfolding initial
initial-IsValid = one_group-IsValid 0

Offers-KeepsFrom :
    (token : AuthToken) (s : Editor) (t : Handler)
    → IsValid s
    → Offers token s t
    → KeepsFrom IsValid s t
Offers-KeepsFrom token s t h o = rw o.runs (handler-KeepsFrom token s o.event h o.is_enabled)

-- In every state that the page can come to, whatever the user does and in whatever order the
-- answers come, there is a group, the ids of the groups are distinct, and so are the ids of the
-- testcases of each group.
pub Reach-IsValid :
    (token : AuthToken) (q : Page Request Answer Editor)
    → Reach (Offers token) (record { state = initial; tasks = [] }) q
    → IsValid q.state
Reach-IsValid token q r =
    (Reach-Holds (Offers token) IsValid (Offers-KeepsFrom token) _ q r
      (record { now = initial-IsValid; pending = tt })).now
