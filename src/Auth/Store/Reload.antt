-- ===== src/Auth/Store/Reload.antt =====
-- frontend/src/lib/auth.ts: what a page that is loaded later reads back from the storage.
use jjudge.Prelude.{
  ℕ, zero, suc, ◌≤◌, ◌≡◌, refl, true, Option, none, some, arith, inl, inr, Bool-cases, ap, ◌∙◌,
  Text,
}
use jjudge.Auth.Token.{Platform, is_token_expired, get_token_expiry_ms, lapsed}
use jjudge.Auth.Store.{
  StoredAuth, stringify, raw_token, string_token, Store, Env, initial, expired, truthy_token,
  normalize_auth, set_auth, get_auth_snapshot, value_of, browser,
}

string_token-raw_token : (t : Option Text) → string_token (raw_token t) ≡ t
string_token-raw_token none = refl
string_token-raw_token (some t) = refl

value_of-stringify :
    (v : Env) (a : StoredAuth) → value_of v (some (stringify a)) ≡ normalize_auth v a
unfolding value_of
value_of-stringify v a =
    ap (λ t. normalize_auth v (record { token = t; user = a.user }))
      (string_token-raw_token a.token)

lapsed-later :
    (now later : ℕ) (o : Option ℕ) → now ≤ later → lapsed o now ≡ true → lapsed o later ≡ true
lapsed-later now later none h e = cc
lapsed-later now later (some zero) h e = cc
lapsed-later now later (some (suc x)) h e = ground arith

expired-later :
    (p : Platform) (now later : ℕ) (t : Option Text)
    → now ≤ later
    → expired (browser p now) t ≡ true
    → expired (browser p later) t ≡ true
unfolding is_token_expired
expired-later p now later none h e = cc
expired-later p now later (some t) h e = lapsed-later now later (get_token_expiry_ms p t) h e

pub normalize_auth-later :
    (p : Platform) (now later : ℕ) (a : StoredAuth)
    → now ≤ later
    → normalize_auth (browser p later) (normalize_auth (browser p now) a)
      ≡ normalize_auth (browser p later) a
unfolding normalize_auth
normalize_auth-later p now later a h = elim (Bool-cases (truthy_token a.token)) [
  | inl t ↦ elim (Bool-cases (expired (browser p now) a.token)) [
    | inl e ↦ rw (t, e, expired-later p now later a.token h e)
    | inr e ↦ rw (t, e) (rw t)
  ]
  | inr f ↦ rw (f, f)
]

-- A page that is loaded after a sign-in, at the same time or later, starts signed in as the same
-- user, unless the token has expired by then; in that case it starts signed out.
pub get_auth_snapshot-set_auth :
    (p : Platform) (now later : ℕ) (a : StoredAuth) (s : Store)
    → now ≤ later
    → (get_auth_snapshot (browser p later) (initial (set_auth (browser p now) a s).storage)).0
      ≡ normalize_auth (browser p later) a
unfolding get_auth_snapshot set_auth
get_auth_snapshot-set_auth p now later a s h =
    value_of-stringify (browser p later) (normalize_auth (browser p now) a)
    ∙ normalize_auth-later p now later a h
