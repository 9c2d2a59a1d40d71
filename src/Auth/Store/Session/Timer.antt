-- ===== src/Auth/Store/Session/Timer.antt =====
-- frontend/src/lib/auth.ts: the timer of an account.
use jjudge.Prelude.{ℕ, zero, suc, ◌≤◌, ◌≡◌, refl, true, false, Option, none, some, arith}
use jjudge.Auth.Token.{lapsed}
use jjudge.Auth.Store.{Env, due}
use jjudge.Auth.Store.Guarded.{Due}
use jjudge.Auth.Store.Session.{InReach, Exact}

pub due-Exact : (v : Env) (o : Option ℕ) → InReach v.now o → Exact v.now o (due v o)
unfolding due
due-Exact v none h = refl
due-Exact v (some zero) h = refl
due-Exact v (some (suc e)) h = (ground arith, ground arith)

pub InReach-later : {last now : ℕ} (o : Option ℕ) → last ≤ now → InReach last o → InReach now o
InReach-later none h k = tt
InReach-later (some e) h k = omega arith

pub Exact-later : {last now : ℕ} (o t : Option ℕ) → last ≤ now → Exact last o t → Exact now o t
Exact-later none t h k = k
Exact-later (some zero) t h k = k
Exact-later (some (suc e)) none h k = k
Exact-later (some (suc e)) (some d) h (k, l) = (k, omega arith)

-- A timer that is due stands for an expiry that has passed, and one that is not for one that has not.
pub Exact-Due : (now : ℕ) (o t : Option ℕ) → Exact now o t → Due now t → lapsed o now ≡ true
Exact-Due now none none e d = absurd d
Exact-Due now none (some t) e d = cc
Exact-Due now (some zero) none e d = absurd d
Exact-Due now (some zero) (some t) e d = cc
Exact-Due now (some (suc e)) none k d = absurd d
Exact-Due now (some (suc e)) (some t) (k, l) d = ground arith

pub Exact-lapsed : (now : ℕ) (o t : Option ℕ) → Exact now o t → ¬ Due now t → lapsed o now ≡ false
Exact-lapsed now none t k n = refl
Exact-lapsed now (some zero) t k n = refl
Exact-lapsed now (some (suc e)) none k n = absurd k
Exact-lapsed now (some (suc e)) (some d) (k, l) n = ground arith
