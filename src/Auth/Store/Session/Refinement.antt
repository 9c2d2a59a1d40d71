-- ===== src/Auth/Store/Session/Refinement.antt =====
-- frontend/src/lib/auth.ts: every operation of the module keeps to the account.
use jjudge.Prelude.{ℕ, ◌≤◌, ◌≡◌, refl, sym, ap, ◌∙◌, Option, none, some, arith}
use jjudge.Auth.Token.{Platform}
use jjudge.Auth.Store.{
  StoredAuth, signed_out, Item, malformed, parsed, Store, Env, browser, due, expiry, normalize_auth,
  value_of, clear_auth, use_auth, schedule_expiry_check, read_from_storage, get_auth_snapshot, tick,
  subscribe_auth, unsubscribe_auth,
}
use jjudge.Auth.Store.Guarded.{Event, sign_in, sign_out, render, fire, subscribe, unsubscribe, step}
use jjudge.Auth.Store.Reload.{normalize_auth-later}
use jjudge.Auth.Store.Session.{
  account, after, IsInReach, Lasts, Session, opened, happened, Stands, unread, read,
}
use jjudge.Auth.Store.Session.Timer.{due-Exact}
use jjudge.Auth.Store.Session.Accounts.{normalize-IsInReach, set_auth-Stands, Stands-later}
use jjudge.Auth.Store.Session.Ticks.{tick-Stands, tick-snapshot}

-- The store after a component has read an item for the first time.
read_once-Stands :
    (p : Platform) (now : ℕ) (s : Store) (a b : StoredAuth)
    → b ≡ normalize_auth (browser p now) a
    → IsInReach p now a
    → s.auth_state ≡ b
    → s.cached_snapshot ≡ some b
    → s.expiry_timer ≡ due (browser p now) (expiry p b.token)
    → Stands p now s a
read_once-Stands p now s a b e h state cached timer =
    let k : IsInReach p now b = rw e (normalize-IsInReach p now a h) in
    read (cached ∙ ap some (sym state))
      (rw state (rw timer (due-Exact (browser p now) (expiry p b.token) k)))
      (λ later l. rw state (rw e (normalize_auth-later p now later a l))) (rw state k)

use_auth-Stands :
    (p : Platform) (now : ℕ) (s : Store) (a : StoredAuth)
    → Stands p now s a
    → Stands p now (use_auth (browser p now) s).1 a
unfolding use_auth get_auth_snapshot schedule_expiry_check read_from_storage
use_auth-Stands p now s a (unread c t v r) = rw c (
    read_once-Stands p now _ a (value_of (browser p now) s.storage) (v now (omega arith)) r refl
      refl refl)
use_auth-Stands p now s a (read c t v r) =
    rw c (read refl (due-Exact (browser p now) (expiry p s.auth_state.token) r) v r)

-- What an account depends on of a store.
same_session :
    (p : Platform) (now : ℕ) (s u : Store) (a : StoredAuth)
    → u.auth_state ≡ s.auth_state
    → u.cached_snapshot ≡ s.cached_snapshot
    → u.expiry_timer ≡ s.expiry_timer
    → u.storage ≡ s.storage
    → Stands p now s a
    → Stands p now u a
same_session p now s u a e f g i (unread c t v r) =
    unread (f ∙ c) (g ∙ t) (λ later l. ap (value_of (browser p later)) i ∙ v later l) r
same_session p now s u a e f g i (read c t v r) =
    read (f ∙ c ∙ ap some (sym e)) (rw e (rw g t)) (λ later l. rw e (v later l)) (rw e r)

pub step-Stands :
    (p : Platform) {last : ℕ} (now : ℕ) (e : Event) (s : Store) (a : StoredAuth)
    → last ≤ now
    → Lasts p now e
    → Stands p last s a
    → Stands p now (step (browser p now) e s) (after e a)
unfolding step clear_auth subscribe_auth unsubscribe_auth expiry
step-Stands p now (sign_in b) s a l h k = set_auth-Stands p now b s h
step-Stands p now sign_out s a l h k = set_auth-Stands p now signed_out s tt
step-Stands p now render s a l h k = use_auth-Stands p now s a (Stands-later p s a l k)
step-Stands p now fire s a l h k = tick-Stands p now s a (Stands-later p s a l k)
step-Stands p now (subscribe cb) s a l h k =
    same_session p now s _ a refl refl refl refl (Stands-later p s a l k)
step-Stands p now (unsubscribe cb) s a l h k =
    same_session p now s _ a refl refl refl refl (Stands-later p s a l k)

value_of-account : (v : Env) (i : Option Item) → value_of v i ≡ normalize_auth v (account i)
unfolding value_of normalize_auth
value_of-account v none = refl
value_of-account v (some malformed) = refl
value_of-account v (some (parsed t u)) = refl

Session-Stands :
    (p : Platform) {now : ℕ} {s : Store} {a : StoredAuth} → Session p now s a → Stands p now s a
Session-Stands p (opened item now h) =
    unread refl refl (λ later l. value_of-account (browser p later) item) h
Session-Stands p (happened {s} {a} e now k l h) = step-Stands p now e s a l h (Session-Stands p k)

-- From the loading of a page on, through any sequence of sign-ins, sign-outs, renderings, subscriptions
-- and timers, once the timers that are due have run, a component is given exactly the account that was
-- signed in or loaded last, unless its token has expired, and then nobody's. This holds where no token
-- is good for 2^31 ms or longer when it comes into the store.
pub get_auth_snapshot-refines :
    (p : Platform) (last now : ℕ) (s : Store) (a : StoredAuth)
    → Session p last s a
    → last ≤ now
    → (get_auth_snapshot (browser p now) (tick (browser p now) s)).0
      ≡ normalize_auth (browser p now) a
get_auth_snapshot-refines p last now s a k l =
    tick-snapshot p now s a (Stands-later p s a l (Session-Stands p k))
