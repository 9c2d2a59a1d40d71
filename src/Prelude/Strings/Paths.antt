-- ===== src/Prelude/Strings/Paths.antt =====
-- The segments of an address, between its slashes.
use mathlib.Core.Path.{◌≡◌, refl}
use mathlib.Core.Bool.{Bool, true, not, ◌&&◌, ◌||◌}
use mathlib.Core.List.{[], ◌∷◌, ◌++◌}
use native.Mathlib.Omega.{arith}
use Prim.Native.Nat.{ℕ}
use jjudge.Prelude.Tests.{◌==◌, leb}
use jjudge.Prelude.Lists.{all, All}
use jjudge.Prelude.Strings.{Text, truthy, split, push_head}
use jjudge.Prelude.Decimal.{to_string, to_string-digits, IsDigit, truthy-to_string}

-- The letters and digits, the dash and the underscore stand for themselves in an address; a dot may
-- make a segment "." or "..", and a question mark, a number sign or a percent sign mean something else.
unfoldable pub is_unreserved : ℕ → Bool
is_unreserved c =
    leb b'a' c && leb c b'z'
    || leb b'A' c && leb c b'Z'
    || leb b'0' c && leb c b'9'
    || c == b'-'
    || c == b'_'

-- A text that a browser reads as one segment, unchanged, between two slashes.
pub record IsSegment (t : Text) : Type 0 where
  pub is_not_empty : truthy t ≡ true
  pub is_plain : all is_unreserved t ≡ true

unreserved_no_slash : (t : Text) → all is_unreserved t ≡ true → all (λ c. not (c == b'/')) t ≡ true
unfolding is_unreserved
unreserved_no_slash [] h = refl
unreserved_no_slash (c ∷ t) h = ground (arith, unreserved_no_slash t)

pub has_no_slash : (t : Text) → IsSegment t → all (λ c. not (c == b'/')) t ≡ true
has_no_slash t h = unreserved_no_slash t h.is_plain

pub split-segment : (t : Text) → all (λ c. not (c == b'/')) t ≡ true → split b'/' t ≡ t ∷ []
unfolding split push_head
split-segment [] h = refl
split-segment (c ∷ t) h = ground (arith, split-segment t)

pub split-slash :
    (t r : Text)
    → all (λ c. not (c == b'/')) t ≡ true
    → split b'/' (t ++ b'/' ∷ r) ≡ t ∷ split b'/' r
unfolding split push_head
split-slash [] r h = refl
split-slash (c ∷ t) r h = ground (arith, split-slash t r)

all-digits : (t : Text) → All IsDigit t → all is_unreserved t ≡ true
unfolding is_unreserved
all-digits [] h = refl
all-digits (c ∷ t) (d, h) = ground (arith, all-digits t h)

-- The digits of a number can.
pub to_string-IsSegment : (n : ℕ) → IsSegment (to_string n)
to_string-IsSegment n = record {
  is_not_empty = truthy-to_string n;
  is_plain = all-digits (to_string n) (to_string-digits n);
}
