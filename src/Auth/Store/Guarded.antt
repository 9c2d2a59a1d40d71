-- ===== src/Auth/Store/Guarded.antt =====
-- frontend/src/lib/auth.ts: the timer that guards a token, over the life of a page.
use Prim.Native.Nat.{max}
use jjudge.Prelude.{
  ℕ, zero, suc, ◌-◌, ◌≤◌, ◌≡◌, refl, Option, none, some, arith, ◌⊎◌, inl, inr, Bool-cases, leb,
}
use jjudge.Auth.Token.{Platform}
use jjudge.Auth.Store.{
  StoredAuth, signed_out, Item, Store, Env, browser, initial, timer_delay, due, expiry,
  normalize_auth, set_auth, clear_auth, use_auth, get_auth_snapshot, tick, run_timer,
  subscribe_auth, unsubscribe_auth,
}

-- What happens to the store of a browser page, each at a time of its own.
pub data Event : Type 0 where
  sign_in : StoredAuth → Event
  sign_out render fire : Event
  subscribe unsubscribe : ℕ → Event

unfoldable pub step : Env → Event → Store → Store
step v (sign_in a) s = set_auth v a s
step v sign_out s = clear_auth v s
step v render s = (use_auth v s).1
step v fire s = tick v s
step v (subscribe cb) s = subscribe_auth cb s
step v (unsubscribe cb) s = unsubscribe_auth cb s

-- The stores that a page can come to, from any item in its storage; the clock does not run back.
pub data Trace (p : Platform) : ℕ → Store → Type 0 where
  load : (item : Option Item) (s : Store) (now : ℕ) → s ≡ initial item → Trace p now s
  event :
      {last : ℕ} {s : Store} (e : Event) (now : ℕ) (s' : Store)
      → Trace p last s
      → last ≤ now
      → s' ≡ step (browser p now) e s
      → Trace p now s'

-- While a token that can expire is held, a timer runs that is due when the token expires, or at
-- once where it has expired already; and the snapshot is the state.
abbrev pub Timed : ℕ → ℕ → Option ℕ → Type 0
Timed now e none = ⊥
Timed now e (some d) = d ≤ max e now

-- The timer runs, and is due.
abbrev pub Due : ℕ → Option ℕ → Type 0
Due now none = ⊥
Due now (some d) = d ≤ now

abbrev pub Guards : ℕ → Option ℕ → Option ℕ → Type 0
Guards now none timer = Unit {0}
Guards now (some zero) timer = Unit {0}
Guards now (some (suc e)) timer = Timed now (suc e) timer

pub record Guarded (p : Platform) (now : ℕ) (s : Store) : Type 0 where
  pub timed : Guards now (expiry p s.auth_state.token) s.expiry_timer
  pub same : (s.cached_snapshot ≡ none) ⊎ (s.cached_snapshot ≡ some s.auth_state)

timer_delay_le : (ms : ℕ) → timer_delay ms ≤ ms
timer_delay_le ms = ground arith

due-Guards : (v : Env) (o : Option ℕ) → Guards v.now o (due v o)
unfolding due
due-Guards v none = tt
due-Guards v (some zero) = tt
due-Guards v (some (suc e)) = omega (arith, timer_delay_le (max (suc e - v.now) 0))

Guards-later : {last now : ℕ} (o t : Option ℕ) → last ≤ now → Guards last o t → Guards now o t
Guards-later none t h g = tt
Guards-later (some zero) t h g = tt
Guards-later (some (suc e)) none h g = g
Guards-later (some (suc e)) (some d) h g = omega arith

-- A tick does nothing, or the timer is due and `clear_auth` runs.
run_timer-cases :
    (v : Env) (t : Option ℕ) (s : Store)
    → ((run_timer v t s ≡ s) × (¬ Due v.now t))
      ⊎ (run_timer v t s ≡ clear_auth v (record s { expiry_timer = none }))
unfolding run_timer
run_timer-cases v none s = inl (refl, λ h. h)
run_timer-cases v (some d) s = elim (Bool-cases (leb d v.now)) [
  | inl e ↦ inr (rw e)
  | inr e ↦ inl (rw e, ground arith)
]

pub tick-cases :
    (v : Env) (s : Store)
    → ((tick v s ≡ s) × (¬ Due v.now s.expiry_timer))
      ⊎ (tick v s ≡ clear_auth v (record s { expiry_timer = none }))
unfolding tick
tick-cases v s = run_timer-cases v s.expiry_timer s

set_auth-Guarded :
    (v : Env) (a : StoredAuth) (s : Store) → Guarded v.platform v.now (set_auth v a s)
unfolding set_auth
set_auth-Guarded v a s = record {
  timed = due-Guards v (expiry v.platform (normalize_auth v a).token);
  same = inr refl;
}

clear_auth-Guarded : (v : Env) (s : Store) → Guarded v.platform v.now (clear_auth v s)
unfolding clear_auth
clear_auth-Guarded v s = set_auth-Guarded v signed_out s

-- The snapshot that a component reads is then the state.
get_auth_snapshot-same :
    (p : Platform) (now : ℕ) (s : Store)
    → (s.cached_snapshot ≡ none) ⊎ (s.cached_snapshot ≡ some s.auth_state)
    → let (a, s') = get_auth_snapshot (browser p now) s in
      (s'.cached_snapshot ≡ some a) × (s'.auth_state ≡ a)
unfolding get_auth_snapshot
get_auth_snapshot-same p now s (inl e) = rw e (refl, refl)
get_auth_snapshot-same p now s (inr e) = rw e (refl, refl)

use_auth-Guarded :
    (p : Platform) {last : ℕ} (now : ℕ) (s : Store)
    → Guarded p last s
    → Guarded p now (use_auth (browser p now) s).1
unfolding use_auth
use_auth-Guarded p now s g =
    let (cached, state) = get_auth_snapshot-same p now s g.same in
    let a = (get_auth_snapshot (browser p now) s).0 in
    record {
      timed = rw state (due-Guards (browser p now) (expiry p a.token));
      same = inr (rw state cached);
    }

pub Guarded-later :
    (p : Platform) {last now : ℕ} (s : Store) → last ≤ now → Guarded p last s → Guarded p now s
Guarded-later p s h g = record {
  timed = Guards-later (expiry p s.auth_state.token) s.expiry_timer h g.timed;
  same = g.same;
}

pub tick-Guarded :
    (p : Platform) {last : ℕ} (now : ℕ) (s : Store)
    → last ≤ now
    → Guarded p last s
    → Guarded p now (tick (browser p now) s)
tick-Guarded p now s h g = elim (tick-cases (browser p now) s) [
  | inl (e, _) ↦ rw e (Guarded-later p s h g)
  | inr e ↦ rw e (clear_auth-Guarded (browser p now) (record s { expiry_timer = none }))
]

step-Guarded :
    (p : Platform) {last : ℕ} (now : ℕ) (e : Event) (s : Store)
    → last ≤ now
    → Guarded p last s
    → Guarded p now (step (browser p now) e s)
unfolding step subscribe_auth unsubscribe_auth
step-Guarded p now (sign_in a) s h g = set_auth-Guarded (browser p now) a s
step-Guarded p now sign_out s h g = clear_auth-Guarded (browser p now) s
step-Guarded p now render s h g = use_auth-Guarded p now s g
step-Guarded p now fire s h g = tick-Guarded p now s h g
step-Guarded p now (subscribe cb) s h g =
    let g' = Guarded-later p s h g in record { timed = g'.timed; same = g'.same }
step-Guarded p now (unsubscribe cb) s h g =
    let g' = Guarded-later p s h g in record { timed = g'.timed; same = g'.same }

pub Trace-Guarded : (p : Platform) {now : ℕ} {s : Store} → Trace p now s → Guarded p now s
unfolding expiry
Trace-Guarded p (load item s now e) = rw e (record { timed = tt; same = inl refl })
Trace-Guarded p (event {s} e now s' t h d) = rw d (step-Guarded p now e s h (Trace-Guarded p t))
