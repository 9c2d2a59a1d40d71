-- ===== src/Auth/Store/Expiry.antt =====
-- frontend/src/lib/auth.ts: no expired token is left once the timers have run.
use jjudge.Prelude.{
  Text, ℕ, zero, suc, ◌≤◌, ◌≡◌, refl, false, [], ◌∷◌, Option, none, some, arith, inl, inr,
  Bool-cases,
}
use jjudge.Auth.Token.{Platform, decode_jwt_payload, get_token_expiry_ms, is_token_expired, lapsed}
use jjudge.Auth.Store.{
  StoredAuth, signed_out, Item, Store, Env, browser, expired, truthy_token, expiry, normalize_auth,
  clear_auth, get_auth_snapshot, value_of, malformed, parsed, tick,
}
use jjudge.Auth.Store.Guarded.{
  Trace, Due, Guards, tick-cases, Guarded-later, tick-Guarded, Trace-Guarded,
}

-- A token that is guarded by a timer which is not due has not expired.
Guards-lapsed : (now : ℕ) (o t : Option ℕ) → Guards now o t → ¬ Due now t → lapsed o now ≡ false
Guards-lapsed now none t g n = refl
Guards-lapsed now (some zero) t g n = refl
Guards-lapsed now (some (suc e)) none g n = absurd g
Guards-lapsed now (some (suc e)) (some d) g n = ground arith

pub expired-eq-lapsed :
    (p : Platform) (now : ℕ) (t : Option Text) → expired (browser p now) t ≡ lapsed (expiry p t) now
unfolding expiry is_token_expired get_token_expiry_ms decode_jwt_payload
expired-eq-lapsed p now none = refl
expired-eq-lapsed p now (some []) = refl
expired-eq-lapsed p now (some (c ∷ t)) = refl

pub falsy-not_expired :
    (p : Platform) (now : ℕ) (t : Option Text)
    → truthy_token t ≡ false
    → expired (browser p now) t ≡ false
unfolding is_token_expired get_token_expiry_ms decode_jwt_payload
falsy-not_expired p now none h = refl
falsy-not_expired p now (some []) h = refl
falsy-not_expired p now (some (c ∷ t)) h = cc

clear_auth-signed_out : (v : Env) (s : Store) → (clear_auth v s).auth_state ≡ signed_out
unfolding clear_auth normalize_auth
clear_auth-signed_out v s = refl

tick-state-not_expired :
    (p : Platform) (last now : ℕ) (s : Store)
    → Trace p last s
    → last ≤ now
    → expired (browser p now) (tick (browser p now) s).auth_state.token ≡ false
tick-state-not_expired p last now s t h =
    let g = Guarded-later p s h (Trace-Guarded p t) in
    elim (tick-cases (browser p now) s) [
      | inl (e, n) ↦
          rw (e, expired-eq-lapsed)
            (Guards-lapsed now (expiry p s.auth_state.token) s.expiry_timer g.timed n)
      | inr e ↦ rw (e, clear_auth-signed_out)
    ]

-- What the module normalises holds no expired token.
pub normalize_auth-not_expired :
    (p : Platform) (now : ℕ) (a : StoredAuth)
    → expired (browser p now) (normalize_auth (browser p now) a).token ≡ false
unfolding normalize_auth
normalize_auth-not_expired p now a = elim (Bool-cases (expired (browser p now) a.token)) [
  | inl e ↦ elim (Bool-cases (truthy_token a.token)) [
    | inl f ↦ rw (f, e)
    | inr f ↦ rw f (falsy-not_expired p now a.token f)
  ]
  | inr e ↦ elim (Bool-cases (truthy_token a.token)) [ inl f ↦ rw (f, e) e | inr f ↦ rw f e ]
]

value_of-not_expired :
    (p : Platform) (now : ℕ) (i : Option Item)
    → expired (browser p now) (value_of (browser p now) i).token ≡ false
unfolding value_of
value_of-not_expired p now none = refl
value_of-not_expired p now (some malformed) = refl
value_of-not_expired p now (some (parsed t u)) = normalize_auth-not_expired p now _

-- Whatever the events were, once the timers that are due at `now` have run, neither the module's
-- state nor the snapshot that a component is then given holds an expired token.
pub tick-not_expired :
    (p : Platform) (last now : ℕ) (s : Store)
    → Trace p last s
    → last ≤ now
    → (expired (browser p now) (tick (browser p now) s).auth_state.token ≡ false)
      × (expired
            (browser p now)
            (get_auth_snapshot (browser p now) (tick (browser p now) s)).0.token
          ≡ false)
unfolding get_auth_snapshot
tick-not_expired p last now s t h =
    let state = tick-state-not_expired p last now s t h in
    let s' = tick (browser p now) s in
    (
      state,
      elim (tick-Guarded p now s h (Trace-Guarded p t)).same [
        | inl e ↦ rw e (value_of-not_expired p now s'.storage)
        | inr e ↦ rw e state
      ],
    )
