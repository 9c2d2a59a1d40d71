-- ===== src/Auth/Store/Session/Since.antt =====
-- frontend/src/lib/auth.ts: the account that was signed in, as long as nobody signs in or out.
use jjudge.Prelude.{ℕ, ◌≤◌, ◌≡◌}
use jjudge.Auth.Token.{Platform}
use jjudge.Auth.Store.{
  StoredAuth, Store, browser, set_auth, normalize_auth, get_auth_snapshot, tick,
}
use jjudge.Auth.Store.Guarded.{Event, sign_in, sign_out, render, fire, subscribe, unsubscribe, step}
use jjudge.Auth.Store.Session.{IsInReach, Stands}
use jjudge.Auth.Store.Session.Accounts.{set_auth-Stands, Stands-later}
use jjudge.Auth.Store.Session.Ticks.{tick-snapshot}
use jjudge.Auth.Store.Session.Refinement.{step-Stands}

-- An event that signs nobody in or out.
abbrev pub IsQuiet : Event → Type 0
IsQuiet (sign_in a) = ⊥
IsQuiet sign_out = ⊥
IsQuiet _ = Unit {0}

-- The stores that come of `s` from the time `now` on by such events; the clock does not run back.
pub data Since (p : Platform) (now : ℕ) (s : Store) : ℕ → Store → Type 0 where
  here : Since p now s now s
  happens :
      {last : ℕ} {u : Store} (e : Event) (later : ℕ)
      → Since p now s last u
      → IsQuiet e
      → last ≤ later
      → Since p now s later (step (browser p later) e u)

quiet-Stands :
    (p : Platform) {last : ℕ} (later : ℕ) (e : Event) (u : Store) (a : StoredAuth)
    → IsQuiet e
    → last ≤ later
    → Stands p last u a
    → Stands p later (step (browser p later) e u) a
quiet-Stands p later (sign_in b) u a q l h = elim q [ ]
quiet-Stands p later sign_out u a q l h = elim q [ ]
quiet-Stands p later render u a q l h = step-Stands p later render u a l tt h
quiet-Stands p later fire u a q l h = step-Stands p later fire u a l tt h
quiet-Stands p later (subscribe cb) u a q l h = step-Stands p later (subscribe cb) u a l tt h
quiet-Stands p later (unsubscribe cb) u a q l h = step-Stands p later (unsubscribe cb) u a l tt h

Since-Stands :
    (p : Platform) {now : ℕ} {s : Store} {last : ℕ} {u : Store} (a : StoredAuth)
    → Stands p now s a
    → Since p now s last u
    → Stands p last u a
Since-Stands p a h here = h
Since-Stands p a h (happens {u = u} e later k q l) =
    quiet-Stands p later e u a q l (Since-Stands p a h k)

-- After a sign-in, and until the next or a sign-out, a component is given the account of it once the timers that
-- are due have run, unless its token has expired.
pub get_auth_snapshot-Since :
    (p : Platform) (now last later : ℕ) (a : StoredAuth) (s u : Store)
    → IsInReach p now a
    → Since p now (set_auth (browser p now) a s) last u
    → last ≤ later
    → (get_auth_snapshot (browser p later) (tick (browser p later) u)).0
      ≡ normalize_auth (browser p later) a
get_auth_snapshot-Since p now last later a s u h k l =
    tick-snapshot p later u a
      (Stands-later p u a l (Since-Stands p a (set_auth-Stands p now a s h) k))
