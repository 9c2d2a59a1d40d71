-- ===== src/Auth/Store/Session.antt =====
-- frontend/src/lib/auth.ts: what the module promises to the pages. Its state, snapshot, timer and
-- storage together stand for one account, the last one that was signed in, seen through its expiry.
pub mod Timer
pub mod Accounts
pub mod Ticks
pub mod Refinement
pub mod Since
use Prim.Native.Nat.{max}
use jjudge.Prelude.{
  ℕ, zero, suc, ◌+◌, ◌-◌, ◌≤◌, ◌<◌, ◌≡◌, refl, sym, ap, ◌∙◌, true, false, Option, none, some, arith,
  inl, inr, ◌⊎◌, Bool-cases, leb,
}
use jjudge.Auth.Token.{Platform, lapsed}
use jjudge.Auth.Store.{
  StoredAuth, signed_out, Item, malformed, parsed, Store, Env, browser, initial, string_token,
  timer_delay, due, expiry, expired, truthy_token, normalize_auth, value_of, set_auth, clear_auth,
  use_auth, schedule_expiry_check, run_timer, read_from_storage, get_auth_snapshot, tick,
  subscribe_auth, unsubscribe_auth,
}
use jjudge.Auth.Store.Guarded.{
  Event, sign_in, sign_out, render, fire, subscribe, unsubscribe, step, Due, tick-cases,
}
use jjudge.Auth.Store.Expiry.{expired-eq-lapsed, falsy-not_expired}
use jjudge.Auth.Store.Delay.{normalize_auth_of_live}
use jjudge.Auth.Store.Reload.{normalize_auth-later}

-- The account that a stored item is read as, and the one after an event.
abbrev pub account : Option Item → StoredAuth
account none = signed_out
account (some malformed) = signed_out
account (some (parsed t u)) = record { token = string_token t; user = u }

abbrev pub after : Event → StoredAuth → StoredAuth
after (sign_in b) a = b
after sign_out a = signed_out
after render a = a
after fire a = a
after (subscribe cb) a = a
after (unsubscribe cb) a = a

-- An expiry that a timer can wait for.
abbrev pub InReach : ℕ → Option ℕ → Type 0
InReach now none = Unit {0}
InReach now (some e) = e < now + 2_147_483_648

abbrev pub IsInReach : Platform → ℕ → StoredAuth → Type 0
IsInReach p now a = InReach now (expiry p a.token)

abbrev pub Lasts : Platform → ℕ → Event → Type 0
Lasts p now (sign_in b) = IsInReach p now b
Lasts p now _ = Unit {0}

-- A page from its loading on, with the account that its store stands for. Every account that is loaded
-- or signed in expires within 2^31 ms of that, or never.
pub data Session (p : Platform) : ℕ → Store → StoredAuth → Type 0 where
  opened :
      (item : Option Item) (now : ℕ)
      → IsInReach p now (account item)
      → Session p now (initial item) (account item)
  happened :
      {last : ℕ} {s : Store} {a : StoredAuth} (e : Event) (now : ℕ)
      → Session p last s a
      → last ≤ now
      → Lasts p now e
      → Session p now (step (browser p now) e s) (after e a)

-- The timer that runs for an expiry: none where there is none, and else one that is due at the expiry,
-- or later where the expiry had passed already.
abbrev pub Exact : ℕ → Option ℕ → Option ℕ → Type 0
Exact now none timer = timer ≡ none
Exact now (some zero) timer = timer ≡ none
Exact now (some (suc e)) none = ⊥
Exact now (some (suc e)) (some d) = (suc e ≤ d) × (d ≤ max (suc e) now)

-- The store stands for the account `a`.
pub data Stands (p : Platform) (now : ℕ) (s : Store) (a : StoredAuth) : Type 0 where
  unread :
      s.cached_snapshot ≡ none
      → s.expiry_timer ≡ none
      → ((later : ℕ)
          → now ≤ later
          → value_of (browser p later) s.storage ≡ normalize_auth (browser p later) a)
      → IsInReach p now a
      → Stands p now s a
  read :
      s.cached_snapshot ≡ some s.auth_state
      → Exact now (expiry p s.auth_state.token) s.expiry_timer
      → ((later : ℕ)
          → now ≤ later
          → normalize_auth (browser p later) s.auth_state ≡ normalize_auth (browser p later) a)
      → IsInReach p now s.auth_state
      → Stands p now s a
