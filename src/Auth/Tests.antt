-- ===== src/Auth/Tests.antt =====
-- The theorems on the sign-in state at concrete tokens and times, and tests of the definitions.
use jjudge.Prelude.{ℕ, ◌≡◌, refl, false, [], ◌∷◌, none, some, arith, Text, lit}
use jjudge.Auth.Token.{
  absent, number, Claims, Platform, normalize, decode_jwt_payload, get_token_expiry_ms,
}
use jjudge.Auth.Store.{
  User, StoredAuth, signed_out, Store, initial, browser, expired, normalize_auth, set_auth, tick,
  get_auth_snapshot, expiry,
}
use jjudge.Auth.Store.Guarded.{load, event, sign_in, render, step}
use jjudge.Auth.Store.Expiry.{tick-not_expired}
use jjudge.Auth.Store.Delay.{tick-set_auth_overflow}
use jjudge.Auth.Store.Reload.{get_auth_snapshot-set_auth}
use jjudge.Auth.Store.Session.{opened, happened}
use jjudge.Auth.Store.Session.Refinement.{get_auth_snapshot-refines}

-- Every payload parses to the same claims.
abbrev claims_at : ℕ → Claims
claims_at n = record { exp = number n; user_id = absent; sub = absent; id = absent }

abbrev platform_at : ℕ → Platform
platform_at n = record { parse = λ s. some (claims_at n); to_number = λ s. none }

abbrev token : Text
token = b'h' ∷ b'.' ∷ b'p' ∷ b'.' ∷ b's' ∷ []

abbrev admin : User
admin = record { name = none; email = none; username = some (lit "ann"); role = some (lit "Admin") }

abbrev signed_in : StoredAuth
signed_in = record { token = some token; user = some admin }

-- The payload "p-_A" of a token, as base64.
normalize_test : normalize (lit "p-_Ab") ≡ lit "p+/Ab==="
unfolding normalize lit
normalize_test = refl

-- An expiry of 2000 seconds.
expiry_test : expiry (platform_at 2000) (some token) ≡ some 2_000_000
unfolding expiry get_token_expiry_ms decode_jwt_payload
expiry_test = refl

abbrev after_sign_in : Store
after_sign_in = step (browser (platform_at 2000) 500_000) (sign_in signed_in) (initial none)

tick-not_expired_example :
    (expired
        (browser (platform_at 2000) 2_500_000)
        (tick (browser (platform_at 2000) 2_500_000) after_sign_in).auth_state.token
      ≡ false)
    × (expired
          (browser (platform_at 2000) 2_500_000)
          (get_auth_snapshot
            (browser (platform_at 2000) 2_500_000)
            (tick (browser (platform_at 2000) 2_500_000) after_sign_in)).0.token
        ≡ false)
tick-not_expired_example =
    tick-not_expired (platform_at 2000) 500_000 2_500_000 after_sign_in
      (event (sign_in signed_in) 500_000 after_sign_in (load none (initial none) 0 refl)
        (omega arith) refl)
      (omega arith)

-- An expiry of 40 days.
far_expiry_test : expiry (platform_at 3_456_000) (some token) ≡ some 3_456_000_000
unfolding expiry get_token_expiry_ms decode_jwt_payload
far_expiry_test = refl

tick-set_auth_overflow_example :
    (tick
      (browser (platform_at 3_456_000) 0)
      (set_auth (browser (platform_at 3_456_000) 0) signed_in (initial none))).auth_state
    ≡ signed_out
tick-set_auth_overflow_example =
    tick-set_auth_overflow (platform_at 3_456_000) 0 3_456_000_000 signed_in (initial none)
      far_expiry_test (omega arith) (omega arith)

get_auth_snapshot-set_auth_example :
    (get_auth_snapshot
      (browser (platform_at 2000) 900_000)
      (initial (set_auth (browser (platform_at 2000) 500_000) signed_in (initial none)).storage)).0
    ≡ normalize_auth (browser (platform_at 2000) 900_000) signed_in
get_auth_snapshot-set_auth_example =
    get_auth_snapshot-set_auth (platform_at 2000) 500_000 900_000 signed_in (initial none)
      (omega arith)

-- A page that signs in and renders.
abbrev rendered : Store
rendered = step (browser (platform_at 2000) 600_000) render after_sign_in

get_auth_snapshot-refines_example :
    (get_auth_snapshot
      (browser (platform_at 2000) 2_500_000)
      (tick (browser (platform_at 2000) 2_500_000) rendered)).0
    ≡ normalize_auth (browser (platform_at 2000) 2_500_000) signed_in
unfolding expiry get_token_expiry_ms decode_jwt_payload
get_auth_snapshot-refines_example =
    get_auth_snapshot-refines (platform_at 2000) 600_000 2_500_000 rendered signed_in
      (happened render 600_000
        (happened (sign_in signed_in) 500_000 (opened none 0 tt) (omega arith) (omega arith))
        (omega arith) tt)
      (omega arith)
