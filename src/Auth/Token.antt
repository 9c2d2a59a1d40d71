-- ===== src/Auth/Token.antt =====
-- frontend/src/lib/auth.ts, lines 24 to 54: the payload of a JWT and its expiry. A text is the list
-- of its code units. Numbers in a token are natural numbers here.
use jjudge.Prelude.{
  ℕ, suc, ◌+◌, ◌*◌, ◌/◌, Bool, false, List, ◌∷◌, Option, none, some, ltb, leb, if◌then◌else◌,
  length, Text, split, replace_all, pad_end,
}

-- A field of the parsed payload; `absent` is null or undefined, `other` any further type.
pub data Claim : Type 0 where
  absent : Claim
  number : ℕ → Claim
  text : Text → Claim
  other : Claim

pub record Claims : Type 0 where
  pub exp : Claim
  pub user_id : Claim
  pub sub : Claim
  pub id : Claim

-- The browser's functions: `parse` is `JSON.parse(atob(s))`, `none` where one of the two throws or
-- the result is no object; `to_number` is `Number(s)`, `none` where the result is not finite.
pub record Platform : Type 0 where
  pub parse : Text → Option Claims
  pub to_number : Text → Option ℕ

-- The base64url payload as padded base64.
unfoldable pub normalize : Text → Text
unfolding replace_all pad_end
normalize payload =
    let normalized = replace_all b'_' b'/' (replace_all b'-' b'+' payload) in
    pad_end normalized ((length normalized + 3) / 4 * 4) b'='

abbrev payload_of : List Text → Option Text
payload_of (header ∷ (c ∷ s) ∷ rest) = some (c ∷ s)
payload_of _ = none

unfoldable pub decode_jwt_payload : Platform → Text → Option Claims
unfolding split normalize
decode_jwt_payload p token = elim (payload_of (split b'.' token)) [
  | none ↦ none
  | some payload ↦ p.parse (normalize payload)
]

-- Seconds unless the number is too large for that.
abbrev pub to_ms : ℕ → ℕ
to_ms n = if ltb 1_000_000_000_000 n then n else n * 1000

expiry_of : Platform → Claim → Option ℕ
expiry_of p (number n) = some (to_ms n)
expiry_of p (text s) = elim (p.to_number s) [ none ↦ none | some n ↦ some (to_ms n) ]
expiry_of p absent = none
expiry_of p other = none

unfoldable pub get_token_expiry_ms : Platform → Text → Option ℕ
unfolding expiry_of
get_token_expiry_ms p token = elim (decode_jwt_payload p token) [
  | none ↦ none
  | some payload ↦ expiry_of p payload.exp
]

-- `!expiry` holds for null and for 0.
abbrev pub lapsed : Option ℕ → ℕ → Bool
lapsed none now = false
lapsed (some ℕ.zero) now = false
lapsed (some (suc e)) now = leb (suc e) now

unfoldable pub is_token_expired : Platform → Text → ℕ → Bool
is_token_expired p token now = lapsed (get_token_expiry_ms p token) now
