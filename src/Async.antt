-- ===== src/Async.antt =====
-- The asynchronous handlers of the pages: a handler is a tree of state updates (`setX(...)`) and
-- awaited requests, in the order of the source. What the browser does between two of them is the
-- business of the children: `Run` runs one handler alone, `Schedule` interleaves many.
pub mod Run
pub mod Schedule
pub mod Simulation
use jjudge.Prelude.{◌≡◌, refl}

-- `Req` is what a page may ask of the server and `Ans r` what the awaited promise of `r` may give,
-- the thrown error included; `S` is the page's state and `A` what the handler returns.
pub data Task (Req : Type 0) (Ans : Req → Type 0) (S : Type 0) (A : Type 0) : Type 0 where
  ret : A → Task Req Ans S A
  update : (S → S) → Task Req Ans S A → Task Req Ans S A
  await : (r : Req) → (Ans r → Task Req Ans S A) → Task Req Ans S A

module _ {Req : Type 0} {Ans : Req → Type 0} {S : Type 0} where
  infixl 5 ◌>>=◌ ◌>>◌
  abbrev pub ◌>>=◌ : {A B : Type 0} → Task Req Ans S A → (A → Task Req Ans S B) → Task Req Ans S B
  ret a >>= f = f a
  update g t >>= f = update g (t >>= f)
  await r k >>= f = await r (λ a. k a >>= f)

  abbrev pub ◌>>◌ : {B : Type 0} → Task Req Ans S (Unit {0}) → Task Req Ans S B → Task Req Ans S B
  m >> k = m >>= λ _. k

  -- `return;`
  abbrev pub done : Task Req Ans S (Unit {0})
  done = ret tt

  -- `setX(...)`
  abbrev pub set : (S → S) → Task Req Ans S (Unit {0})
  set f = update f done

  -- `await api.method(...)`
  abbrev pub call : (r : Req) → Task Req Ans S (Ans r)
  call r = await r ret
