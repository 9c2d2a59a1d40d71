-- ===== src/Auth/Store/Session/Accounts.antt =====
-- frontend/src/lib/auth.ts: accounts and their expiry, and how `setAuth` and `clearAuth` represent them.
use jjudge.Prelude.{
  ℕ, zero, suc, ◌≤◌, ◌≡◌, refl, sym, ◌∙◌, true, false, Option, none, some, arith, inl, inr,
  Bool-cases,
}
use jjudge.Auth.Token.{Platform, lapsed}
use jjudge.Auth.Store.{
  StoredAuth, signed_out, Store, browser, due, expiry, expired, truthy_token, normalize_auth,
  set_auth, clear_auth,
}
use jjudge.Auth.Store.Expiry.{expired-eq-lapsed, falsy-not_expired}
use jjudge.Auth.Store.Delay.{normalize_auth_of_live}
use jjudge.Auth.Store.Reload.{normalize_auth-later}
use jjudge.Auth.Store.Session.{IsInReach, Stands, unread, read}
use jjudge.Auth.Store.Session.Timer.{due-Exact, InReach-later, Exact-later}

-- Of an account whose token has expired nothing is left, and any other is kept.
pub normalize_of_lapsed :
    (p : Platform) (now : ℕ) (a : StoredAuth)
    → lapsed (expiry p a.token) now ≡ true
    → normalize_auth (browser p now) a ≡ signed_out
unfolding normalize_auth
normalize_of_lapsed p now a h =
    let e : expired (browser p now) a.token ≡ true = expired-eq-lapsed p now a.token ∙ h in
    elim (Bool-cases (truthy_token a.token)) [
      | inl t ↦ rw t (rw e refl)
      | inr f ↦ let n = falsy-not_expired p now a.token f in cc
    ]

pub normalize_of_live :
    (p : Platform) (now : ℕ) (a : StoredAuth)
    → lapsed (expiry p a.token) now ≡ false
    → normalize_auth (browser p now) a ≡ a
normalize_of_live p now a h =
    normalize_auth_of_live (browser p now) a (expired-eq-lapsed p now a.token ∙ h)

pub normalize-IsInReach :
    (p : Platform) (now : ℕ) (a : StoredAuth)
    → IsInReach p now a
    → IsInReach p now (normalize_auth (browser p now) a)
unfolding expiry
normalize-IsInReach p now a h = elim (Bool-cases (lapsed (expiry p a.token) now)) [
  | inl e ↦ rw (normalize_of_lapsed p now a e) tt
  | inr e ↦ rw (normalize_of_live p now a e) h
]

pub set_auth-Stands :
    (p : Platform) (now : ℕ) (a : StoredAuth) (s : Store)
    → IsInReach p now a
    → Stands p now (set_auth (browser p now) a s) a
unfolding set_auth
set_auth-Stands p now a s h =
    let k = normalize-IsInReach p now a h in
    read refl (due-Exact (browser p now) (expiry p (normalize_auth (browser p now) a).token) k)
      (λ later l. normalize_auth-later p now later a l) k

pub Stands-later :
    (p : Platform) {last now : ℕ} (s : Store) (a : StoredAuth)
    → last ≤ now
    → Stands p last s a
    → Stands p now s a
Stands-later p s a h (unread c t v r) =
    unread c t (λ later l. v later (omega arith)) (InReach-later (expiry p a.token) h r)
Stands-later p s a h (read c t v r) =
    read c (Exact-later (expiry p s.auth_state.token) s.expiry_timer h t)
      (λ later l. v later (omega arith)) (InReach-later (expiry p s.auth_state.token) h r)

pub lapsed-later :
    (now later : ℕ) (o : Option ℕ) → now ≤ later → lapsed o now ≡ true → lapsed o later ≡ true
lapsed-later now later none h e = cc
lapsed-later now later (some zero) h e = cc
lapsed-later now later (some (suc x)) h e = ground arith

pub cleared-Stands :
    (p : Platform) (now : ℕ) (s : Store) (a : StoredAuth)
    → ((later : ℕ) → now ≤ later → normalize_auth (browser p later) a ≡ signed_out)
    → Stands p now (clear_auth (browser p now) s) a
unfolding clear_auth set_auth normalize_auth due expiry
cleared-Stands p now s a h = read refl refl (λ later l. sym (h later l)) tt
