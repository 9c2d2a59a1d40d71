-- ===== src/Auth/Store/Delay.antt =====
-- frontend/src/lib/auth.ts: how long a sign-in lasts.
use jjudge.Prelude.{
  ℕ, zero, suc, ◌-◌, ◌≤◌, ◌≡◌, refl, ap, Bool, false, Option, none, some, arith, inl, inr,
  Bool-cases, leb, ltb, ◌<◌, ◌+◌, if◌then◌else◌,
}
use jjudge.Auth.Token.{Platform, lapsed}
use jjudge.Auth.Store.{
  StoredAuth, signed_out, Store, Env, browser, expired, truthy_token, timer_delay, due, expiry,
  normalize_auth, set_auth, clear_auth, tick, run_timer,
}
use jjudge.Auth.Store.Expiry.{expired-eq-lapsed}

abbrev is_due : ℕ → Option ℕ → Bool
is_due now none = false
is_due now (some d) = leb d now

run_timer-state :
    (v : Env) (t : Option ℕ) (s : Store)
    → (run_timer v t s).auth_state ≡ (if is_due v.now t then signed_out else s.auth_state)
unfolding run_timer clear_auth normalize_auth
run_timer-state v none s = refl
run_timer-state v (some d) s = elim (Bool-cases (leb d v.now)) [ inl e ↦ rw e | inr e ↦ rw e ]

tick-state :
    (v : Env) (s : Store)
    → (tick v s).auth_state ≡ (if is_due v.now s.expiry_timer then signed_out else s.auth_state)
unfolding tick
tick-state v s = run_timer-state v s.expiry_timer s

pub normalize_auth_of_live :
    (v : Env) (a : StoredAuth) → expired v a.token ≡ false → normalize_auth v a ≡ a
unfolding normalize_auth
normalize_auth_of_live v a h = elim (Bool-cases (truthy_token a.token)) [
  | inl f ↦ rw (f, h)
  | inr f ↦ rw f
]

lapsed-before : (now e : ℕ) → now < e → lapsed (some e) now ≡ false
lapsed-before now zero h = refl
lapsed-before now (suc e) h = ground arith

-- The state and the timer after a sign-in with a token that has not expired.
set_auth-timer :
    (p : Platform) (now e : ℕ) (a : StoredAuth) (s : Store)
    → expiry p a.token ≡ some e
    → now < e
    → ((set_auth (browser p now) a s).auth_state ≡ a)
      × ((set_auth (browser p now) a s).expiry_timer ≡ some (now + timer_delay (e - now)))
unfolding set_auth due
set_auth-timer p now zero a s h k = elim k [ ]
set_auth-timer p now (suc e) a s h k =
    let live : expired (browser p now) a.token ≡ false =
      rw (expired-eq-lapsed, h) (lapsed-before now (suc e) k) in
    let same = normalize_auth_of_live (browser p now) a live in
    (same, rw (same, h) (ap (λ d. some (now + timer_delay d)) (omega arith)))

tick-set_auth_at :
    (p : Platform) (now later e : ℕ) (a : StoredAuth) (s : Store)
    → expiry p a.token ≡ some e
    → now < e
    → (tick (browser p later) (set_auth (browser p now) a s)).auth_state
      ≡ (if leb (now + timer_delay (e - now)) later then signed_out else a)
tick-set_auth_at p now later e a s h k =
    let (state, timer) = set_auth-timer p now e a s h k in rw (tick-state, state, timer)

-- A token that expires within 2^31 ms is kept until then: at any time before its expiry a tick
-- leaves what was signed in, and at its expiry and later a tick signs the user out.
pub tick-set_auth :
    (p : Platform) (now later e : ℕ) (a : StoredAuth) (s : Store)
    → expiry p a.token ≡ some e
    → now < e
    → e - now < 2_147_483_648
    → now ≤ later
    → (tick (browser p later) (set_auth (browser p now) a s)).auth_state
      ≡ (if ltb later e then a else signed_out)
tick-set_auth p now later e a s h k m l = rw (tick-set_auth_at p now later e a s h k) (ground arith)

-- A token that expires later than that by less than 2^31 ms is lost at once: the delay wraps to a
-- negative number, and the first tick signs the user out.
pub tick-set_auth_overflow :
    (p : Platform) (now e : ℕ) (a : StoredAuth) (s : Store)
    → expiry p a.token ≡ some e
    → now + 2_147_483_648 ≤ e
    → e < now + 4_294_967_296
    → (tick (browser p now) (set_auth (browser p now) a s)).auth_state ≡ signed_out
tick-set_auth_overflow p now e a s h k m =
    rw (tick-set_auth_at p now now e a s h (omega arith)) (ground arith)
