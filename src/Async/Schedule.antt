-- ===== src/Async/Schedule.antt =====
-- Many handlers at once. Events start handlers, and answers resume them, in any order. As in
-- JavaScript a handler runs without interruption up to its next `await`.
use jjudge.Prelude.{◌≡◌, List, ◌∷◌, ◌++◌, All, All-exchange, All-middle}
use jjudge.Async.{Task, ret, update, await, ◌>>=◌}

-- A page: its state and its handlers that wait for an answer.
pub record Page (Req : Type 0) (Ans : Req → Type 0) (S : Type 0) : Type 0 where
  pub state : S
  pub tasks : List (Task Req Ans S (Unit {0}))

module _ {Req : Type 0} {Ans : Req → Type 0} {S : Type 0} where
  -- The updates up to the next await.
  abbrev pub settle : {A : Type 0} → S → Task Req Ans S A → S × Task Req Ans S A
  settle s (ret a) = (s, ret a)
  settle s (update f t) = settle (f s) t
  settle s (await r k) = (s, await r k)

  -- Every update of the task keeps `I`, whatever the answers are.
  abbrev pub Keeps : {A : Type 0} → (S → Type 0) → Task Req Ans S A → Type 0
  Keeps I (ret a) = Unit
  Keeps I (update f t) = ((s : S) → I s → I (f s)) × Keeps I t
  Keeps I (await r k) = (a : Ans r) → Keeps I (k a)

  -- The updates up to the first await lead from `s` to a good state, and the rest keeps it so.
  abbrev pub KeepsFrom : {A : Type 0} → (S → Type 0) → S → Task Req Ans S A → Type 0
  KeepsFrom I s t = I (settle s t).0 × Keeps I (settle s t).1

  pub Keeps-KeepsFrom :
      {A : Type 0} (I : S → Type 0) (s : S) (t : Task Req Ans S A)
      → Keeps I t
      → I s
      → KeepsFrom I s t
  Keeps-KeepsFrom I s (ret a) k h = (h, tt)
  Keeps-KeepsFrom I s (update f t) k h = Keeps-KeepsFrom I (f s) t k.1 (k.0 s h)
  Keeps-KeepsFrom I s (await r c) k h = (h, k)

  pub Keeps-bind :
      {A B : Type 0} (I : S → Type 0) (t : Task Req Ans S A) (f : A → Task Req Ans S B)
      → Keeps I t
      → ((a : A) → Keeps I (f a))
      → Keeps I (t >>= f)
  Keeps-bind I (ret a) f h k = k a
  Keeps-bind I (update g t) f (p, h) k = (p, Keeps-bind I t f h k)
  Keeps-bind I (await r c) f h k = λ a. Keeps-bind I (c a) f (h a) k

-- `Offers s t`: an event that the page offers in state `s` runs the handler `t`.
module _ {Req : Type 0} {Ans : Req → Type 0} {S : Type 0}
    (Offers : S → Task Req Ans S (Unit {0}) → Type 0) where
  pub data Step (p q : Page Req Ans S) : Type 0 where
    start :
        (t : Task Req Ans S (Unit {0}))
        → Offers p.state t
        → q ≡ record { state = (settle p.state t).0; tasks = (settle p.state t).1 ∷ p.tasks }
        → Step p q
    answer :
        (xs ys : List (Task Req Ans S (Unit {0}))) (r : Req) (k : Ans r → Task Req Ans S (Unit {0}))
        (a : Ans r)
        → p.tasks ≡ xs ++ await r k ∷ ys
        → q
          ≡ record { state = (settle p.state (k a)).0; tasks = xs ++ (settle p.state (k a)).1 ∷ ys }
        → Step p q

  pub data Reach (p : Page Req Ans S) : Page Req Ans S → Type 0 where
    here : Reach p p
    next : {q r : Page Req Ans S} → Reach p q → Step q r → Reach p r

-- The state is good, and what is still pending keeps it so.
pub record Holds {Req : Type 0} {Ans : Req → Type 0} {S : Type 0} (I : S → Type 0)
    (p : Page Req Ans S) : Type 0 where
  pub now : I p.state
  pub pending : All (Keeps I) p.tasks

module _ {Req : Type 0} {Ans : Req → Type 0} {S : Type 0}
    (Offers : S → Task Req Ans S (Unit {0}) → Type 0) (I : S → Type 0)
    (safe : (s : S) (t : Task Req Ans S (Unit {0})) → I s → Offers s t → KeepsFrom I s t) where
  Step-Holds : (p q : Page Req Ans S) → Step Offers p q → Holds I p → Holds I q
  Step-Holds p q (start t st e) h =
      let k = safe p.state t h.now st in rw e (record { now = k.0; pending = (k.1, h.pending) })
  Step-Holds p q (answer xs ys r k a e d) h =
      let all : All (Keeps I) (xs ++ await r k ∷ ys) = rw e at h.pending in
      let m = Keeps-KeepsFrom I p.state (k a) (All-middle (Keeps I) xs ys all a) h.now in
      rw d (record { now = m.0; pending = All-exchange (Keeps I) xs ys all (λ c. m.1) })

  -- If every handler that an event can start keeps `I`, then `I` holds in every reachable state.
  pub Reach-Holds : (p q : Page Req Ans S) → Reach Offers p q → Holds I p → Holds I q
  Reach-Holds p q here h = h
  Reach-Holds p q (next {q = m} r st) h = Step-Holds m q st (Reach-Holds p m r h)
