-- ===== src/Async/Simulation.antt =====
-- Two pages of which one does what the other does, over requests of its own: each request of the first
-- has a counterpart, and what the counterpart is answered reads as an answer to the first.
use jjudge.Prelude.{◌≡◌, refl, List, ◌∷◌, map}
use jjudge.Async.{Task, ret, update, await, ◌>>=◌}
use jjudge.Async.Run.{Oracle, run}
use jjudge.Async.Schedule.{Keeps}

module _ {Req Req' : Type 0} {Ans : Req → Type 0} {Ans' : Req' → Type 0} (embed : Req → Req')
    (read : (r : Req) → Ans' (embed r) → Ans r) where
  -- The oracle of the first page, given that of the second.
  abbrev pub through : Oracle Req' Ans' → Oracle Req Ans
  through o h r = read r (o (map embed h) (embed r))

module _ {Req Req' : Type 0} {Ans : Req → Type 0} {Ans' : Req' → Type 0} {S : Type 0}
    (embed : Req → Req') (read : (r : Req) → Ans' (embed r) → Ans r) where
  pub data Sim {A : Type 0} : Task Req Ans S A → Task Req' Ans' S A → Type 0 where
    rets : (a : A) → Sim (ret a) (ret a)
    updates :
        (f : S → S) (t : Task Req Ans S A) (u : Task Req' Ans' S A)
        → Sim t u
        → Sim (update f t) (update f u)
    awaits :
        (r : Req) (k : Ans r → Task Req Ans S A) (l : Ans' (embed r) → Task Req' Ans' S A)
        → ((a : Ans' (embed r)) → Sim (k (read r a)) (l a))
        → Sim (await r k) (await (embed r) l)

  -- Run with the same answers, the second page goes through the states of the first, and sends the
  -- counterparts of its requests.
  pub run-Sim :
      {A : Type 0} (o : Oracle Req' Ans') (h : List Req) (s : S) (t : Task Req Ans S A)
      (u : Task Req' Ans' S A)
      → Sim t u
      → ((run o (map embed h) s u).state ≡ (run (through embed read o) h s t).state)
        × ((run o (map embed h) s u).sent ≡ map embed (run (through embed read o) h s t).sent)
  run-Sim o h s _ _ (rets a) = (refl, refl)
  run-Sim o h s _ _ (updates f t u e) = run-Sim o h (f s) t u e
  run-Sim o h s _ _ (awaits r k l e) =
      run-Sim o (r ∷ h) s (k (through embed read o h r)) (l (o (map embed h) (embed r)))
        (e (o (map embed h) (embed r)))

  pub Sim-bind :
      {A B : Type 0} (t : Task Req Ans S A) (u : Task Req' Ans' S A) (f : A → Task Req Ans S B)
      (g : A → Task Req' Ans' S B)
      → Sim t u
      → ((a : A) → Sim (f a) (g a))
      → Sim (t >>= f) (u >>= g)
  Sim-bind _ _ f g (rets a) h = h a
  Sim-bind _ _ f g (updates k t u e) h = updates k (t >>= f) (u >>= g) (Sim-bind t u f g e h)
  Sim-bind _ _ f g (awaits r k l e) h =
      awaits r (λ a. k a >>= f) (λ a. l a >>= g) (λ a. Sim-bind (k (read r a)) (l a) f g (e a) h)

  -- What the first page's handler keeps, the second one's keeps as well.
  pub Keeps-Sim :
      {A : Type 0} (I : S → Type 0) (t : Task Req Ans S A) (u : Task Req' Ans' S A)
      → Sim t u
      → Keeps I t
      → Keeps I u
  Keeps-Sim I _ _ (rets a) h = tt
  Keeps-Sim I _ _ (updates f t u e) (p, h) = (p, Keeps-Sim I t u e h)
  Keeps-Sim I _ _ (awaits r k l e) h = λ a. Keeps-Sim I (k (read r a)) (l a) (e a) (h (read r a))
