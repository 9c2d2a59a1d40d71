-- ===== src/SubmissionForm/Once.antt =====
-- At most one submission of a form is on its way.
use jjudge.Prelude.{
  ℕ, suc, ◌≡◌, refl, ap, Bool, true, false, List, [], ◌∷◌, ◌++◌, if◌then◌else◌, truthy, trim, arith,
}
use jjudge.Async.{ret, update, await}
use jjudge.Async.Schedule.{Page, settle, Step, start, answer, Reach, here, next}
use jjudge.SubmissionForm.{
  Target, Form, Request, Answer, Result, failed, created, Handler, submitted, finish, send,
  handle_submit, Event, submit, choose_language, type_code, enabled, handler, Offers,
}

-- The rest of a handler ends the submission, whatever the answer is.
abbrev pub Ends : Handler → Type 0
Ends t = (s : Form) → (settle s t).0.is_submitting ≡ false × (settle s t).1 ≡ ret tt

-- The tasks of a form that is submitting or not: one of them waits in the first case, none in the
-- second, and all others have ended.
abbrev pub Fits : Bool → List Handler → Type 0
Fits false [] = Unit
Fits true [] = ⊥
Fits b (ret u ∷ ts) = Fits b ts
Fits b (update f t ∷ ts) = ⊥
Fits false (await r k ∷ ts) = ⊥
Fits true (await r k ∷ ts) = ((a : Answer r) → Ends (k a)) × Fits false ts

finish-Ends : (x : Target) (a : Result) → Ends (finish x a)
unfolding finish submitted
finish-Ends x (created id) s = (refl, refl)
finish-Ends x (failed status) s = (refl, refl)

-- The task that gets an answer is the one that waits, and it ends.
Fits-answer :
    (b : Bool) (xs ys : List Handler) (r : Request) (k : Answer r → Handler)
    → Fits b (xs ++ await r k ∷ ys)
    → (b ≡ true) × ((a : Answer r) → Ends (k a)) × Fits false (xs ++ ret tt ∷ ys)
Fits-answer true [] ys r k (e, h) = (refl, e, h)
Fits-answer false [] ys r k h = absurd h
Fits-answer true (ret u ∷ xs) ys r k h = Fits-answer true xs ys r k h
Fits-answer false (ret u ∷ xs) ys r k h = Fits-answer false xs ys r k h
Fits-answer true (update f t ∷ xs) ys r k h = absurd h
Fits-answer false (update f t ∷ xs) ys r k h = absurd h
Fits-answer false (await q c ∷ xs) ys r k h = absurd h
Fits-answer true (await q c ∷ xs) ys r k (e, h) =
    let (e₁, _, _) = Fits-answer false xs ys r k h in cc

Fits-ret : (b : Bool) (ts : List Handler) → Fits b ts → Fits b (ret tt ∷ ts)
Fits-ret true ts h = h
Fits-ret false ts h = h

-- A handler that an event starts fits in.
send-Fits :
    (x : Target) (s : Form) (b : Bool) (ts : List Handler)
    → s.is_submitting ≡ false
    → Fits s.is_submitting ts
    → Fits (settle s (send x s b)).0.is_submitting ((settle s (send x s b)).1 ∷ ts)
unfolding send
send-Fits x s false ts e h = Fits-ret s.is_submitting ts h
send-Fits x s true ts e h = (finish-Ends x, rw e at h)

handler-Fits :
    (x : Target) (s : Form) (e : Event) (ts : List Handler)
    → enabled s e ≡ true
    → Fits s.is_submitting ts
    → Fits (settle s (handler x s e)).0.is_submitting ((settle s (handler x s e)).1 ∷ ts)
unfolding handler enabled handle_submit
handler-Fits x s submit ts e h = send-Fits x s (truthy (trim s.code)) ts (ground arith) h
handler-Fits x s (choose_language l) ts e h = Fits-ret s.is_submitting ts h
handler-Fits x s (type_code c) ts e h = Fits-ret s.is_submitting ts h

Step-Fits :
    (x : Target) (p q : Page Request Answer Form)
    → Step (Offers x) p q
    → Fits p.state.is_submitting p.tasks
    → Fits q.state.is_submitting q.tasks
Step-Fits x p q (start t o e) h =
    rw e (rw o.runs (handler-Fits x p.state o.event p.tasks o.is_enabled h))
Step-Fits x p q (answer xs ys r k a e d) h =
    let (_, ends, rest) = Fits-answer p.state.is_submitting xs ys r k (rw e at h) in
    let (idle, done) = ends a p.state in rw d (rw idle (rw done rest))

-- The number of requests that wait for their answer.
abbrev pub in_flight : List Handler → ℕ
in_flight [] = 0
in_flight (await r k ∷ ts) = suc (in_flight ts)
in_flight (ret u ∷ ts) = in_flight ts
in_flight (update f t ∷ ts) = in_flight ts

Fits-in_flight : (b : Bool) (ts : List Handler) → Fits b ts → in_flight ts ≡ (if b then 1 else 0)
Fits-in_flight false [] h = refl
Fits-in_flight true [] h = absurd h
Fits-in_flight true (ret u ∷ ts) h = Fits-in_flight true ts h
Fits-in_flight false (ret u ∷ ts) h = Fits-in_flight false ts h
Fits-in_flight true (update f t ∷ ts) h = absurd h
Fits-in_flight false (update f t ∷ ts) h = absurd h
Fits-in_flight false (await r k ∷ ts) h = absurd h
Fits-in_flight true (await r k ∷ ts) (e, h) = ap suc (Fits-in_flight false ts h)

Reach-Fits :
    (x : Target) (p q : Page Request Answer Form)
    → Reach (Offers x) p q
    → Fits p.state.is_submitting p.tasks
    → Fits q.state.is_submitting q.tasks
Reach-Fits x p q here h = h
Reach-Fits x p q (next {q = m} r st) h = Step-Fits x m q st (Reach-Fits x p m r h)

-- Whatever the user does and whenever the answers come, one request is on its way while the button is
-- disabled, and none while it is enabled: no solution is sent twice by a second click, and the button
-- does not stay disabled once the answer is there.
pub Reach-in_flight :
    (x : Target) (s : Form) (q : Page Request Answer Form)
    → s.is_submitting ≡ false
    → Reach (Offers x) (record { state = s; tasks = [] }) q
    → in_flight q.tasks ≡ (if q.state.is_submitting then 1 else 0)
Reach-in_flight x s q e r =
    Fits-in_flight q.state.is_submitting q.tasks
      (Reach-Fits x (record { state = s; tasks = [] }) q r (rw e tt))
