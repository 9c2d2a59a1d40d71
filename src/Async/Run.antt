-- ===== src/Async/Run.antt =====
-- One handler that runs with no other in between.
use jjudge.Prelude.{◌≡◌, refl, Bool, true, false, List, ◌∷◌, Option, none, some}
use jjudge.Async.{Task, ret, update, await, ◌>>=◌}

-- What the server answers, given the requests that it has had (the last one first).
abbrev pub Oracle : (Req : Type 0) → (Req → Type 0) → Type 0
Oracle Req Ans = List Req → (r : Req) → Ans r

pub record Outcome (Req S A : Type 0) : Type 0 where
  pub state : S
  pub value : A
  pub sent : List Req

-- Whether a request with no answer but success was taken.
abbrev pub is_taken : Option (Unit {0}) → Bool
is_taken none = false
is_taken (some _) = true

module _ {Req : Type 0} {Ans : Req → Type 0} {S : Type 0} (o : Oracle Req Ans) where
  abbrev pub run : {A : Type 0} → List Req → S → Task Req Ans S A → Outcome Req S A
  run h s (ret a) = record { state = s; value = a; sent = h }
  run h s (update f t) = run h (f s) t
  run h s (await r k) = run (r ∷ h) s (k (o h r))

  -- A sequence runs its second part where the first one left off.
  pub run-bind :
      {A B : Type 0} (h : List Req) (s : S) (t : Task Req Ans S A) (f : A → Task Req Ans S B)
      → run h s (t >>= f) ≡ run (run h s t).sent (run h s t).state (f (run h s t).value)
  run-bind h s (ret a) f = refl
  run-bind h s (update g t) f = run-bind h (g s) t f
  run-bind h s (await r k) f = run-bind (r ∷ h) s (k (o h r)) f
