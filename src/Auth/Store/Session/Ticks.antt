-- ===== src/Auth/Store/Session/Ticks.antt =====
-- frontend/src/lib/auth.ts: the timer's callback, and the snapshot after it.
use jjudge.Prelude.{
  ℕ, ◌≤◌, ◌≡◌, refl, sym, ◌∙◌, true, false, Option, none, some, arith, inl, inr, ◌⊎◌, Bool-cases,
  leb,
}
use jjudge.Auth.Token.{Platform}
use jjudge.Auth.Store.{
  StoredAuth, signed_out, Store, Env, browser, expiry, normalize_auth, set_auth, clear_auth,
  run_timer, read_from_storage, get_auth_snapshot, tick,
}
use jjudge.Auth.Store.Guarded.{Due}
use jjudge.Auth.Store.Session.{Stands, unread, read}
use jjudge.Auth.Store.Session.Timer.{Exact-Due, Exact-lapsed}
use jjudge.Auth.Store.Session.Accounts.{
  normalize_of_lapsed, normalize_of_live, lapsed-later, cleared-Stands,
}

Due-cases : (now : ℕ) (t : Option ℕ) → Due now t ⊎ ¬ Due now t
Due-cases now none = inr (λ h. h)
Due-cases now (some d) = elim (Bool-cases (leb d now)) [
  | inl e ↦ inl (ground arith)
  | inr e ↦ inr (ground arith)
]

run_timer-Due :
    (v : Env) (t : Option ℕ) (s : Store)
    → Due v.now t
    → run_timer v t s ≡ clear_auth v (record s { expiry_timer = none })
unfolding run_timer
run_timer-Due v none s h = absurd h
run_timer-Due v (some d) s h = let e : leb d v.now ≡ true = ground arith in rw e refl

run_timer-not_Due : (v : Env) (t : Option ℕ) (s : Store) → ¬ Due v.now t → run_timer v t s ≡ s
unfolding run_timer
run_timer-not_Due v none s h = refl
run_timer-not_Due v (some d) s h = let e : leb d v.now ≡ false = ground arith in rw e refl

Due-none : (now : ℕ) (t : Option ℕ) → t ≡ none → ¬ Due now t
Due-none now none e d = d
Due-none now (some x) e d = cc

-- Where the timer is due, the account is gone from then on.
Due-signed_out :
    (p : Platform) (now : ℕ) (s : Store) (a : StoredAuth)
    → Stands p now s a
    → Due now s.expiry_timer
    → (later : ℕ) → now ≤ later
    → normalize_auth (browser p later) a ≡ signed_out
Due-signed_out p now s a (unread c t v r) d later l = absurd (Due-none now s.expiry_timer t d)
Due-signed_out p now s a (read c t v r) d later l =
    let o = expiry p s.auth_state.token in
    let e = lapsed-later now later o l (Exact-Due now o s.expiry_timer t d) in
    sym (v later l) ∙ normalize_of_lapsed p later s.auth_state e

pub tick-Stands :
    (p : Platform) (now : ℕ) (s : Store) (a : StoredAuth)
    → Stands p now s a
    → Stands p now (tick (browser p now) s) a
unfolding tick
tick-Stands p now s a k = elim (Due-cases now s.expiry_timer) [
  | inl d ↦
      rw (run_timer-Due (browser p now) s.expiry_timer s d)
        (cleared-Stands p now (record s { expiry_timer = none }) a (Due-signed_out p now s a k d))
  | inr n ↦ rw (run_timer-not_Due (browser p now) s.expiry_timer s n) k
]

-- What a component reads.
clear_auth-snapshot : (v : Env) (s : Store) → (get_auth_snapshot v (clear_auth v s)).0 ≡ signed_out
unfolding get_auth_snapshot clear_auth set_auth normalize_auth
clear_auth-snapshot v s = elim (Bool-cases v.window) [ inl e ↦ rw e refl | inr e ↦ rw e refl ]

live-snapshot :
    (p : Platform) (now : ℕ) (s : Store) (a : StoredAuth)
    → Stands p now s a
    → ¬ Due now s.expiry_timer
    → (get_auth_snapshot (browser p now) s).0 ≡ normalize_auth (browser p now) a
unfolding get_auth_snapshot read_from_storage
live-snapshot p now s a (unread c t v r) n = rw c (v now (omega arith))
live-snapshot p now s a (read c t v r) n =
    let o = expiry p s.auth_state.token in
    let live = normalize_of_live p now s.auth_state (Exact-lapsed now o s.expiry_timer t n) in
    rw c (sym live ∙ v now (omega arith))

pub tick-snapshot :
    (p : Platform) (now : ℕ) (s : Store) (a : StoredAuth)
    → Stands p now s a
    → (get_auth_snapshot (browser p now) (tick (browser p now) s)).0
      ≡ normalize_auth (browser p now) a
unfolding tick
tick-snapshot p now s a k = elim (Due-cases now s.expiry_timer) [
  | inl d ↦ rw (run_timer-Due (browser p now) s.expiry_timer s d) (
      clear_auth-snapshot (browser p now) (record s { expiry_timer = none })
      ∙ sym (Due-signed_out p now s a k d now (omega arith)))
  | inr n ↦ rw (run_timer-not_Due (browser p now) s.expiry_timer s n) (live-snapshot p now s a k n)
]
