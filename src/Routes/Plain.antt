-- ===== src/Routes/Plain.antt =====
-- Plain addresses, made of known texts and of texts that depend on data.
use jjudge.Prelude.{◌≡◌, refl, true, arith, [], ◌∷◌, ◌++◌, all, Text, is_unreserved, IsSegment}
use jjudge.Routes.{is_absolute, is_plain, segments, is_page, serves}

-- A page answers to the address.
abbrev pub Serves : Text → Type 0
Serves path = serves path ≡ true

pub plain_page :
    (path : Text)
    → is_absolute path ≡ true
    → is_plain path ≡ true
    → is_page (segments path) ≡ true
    → Serves path
unfolding serves
plain_page path a h k = rw (a, h, k) refl

is_plain-append : (s t : Text) → is_plain s ≡ true → is_plain t ≡ true → is_plain (s ++ t) ≡ true
unfolding is_plain
is_plain-append [] t h k = k
is_plain-append (c ∷ s) t h k = ground (arith, is_plain-append s t)

is_plain-segment : (t : Text) → all is_unreserved t ≡ true → is_plain t ≡ true
unfolding is_plain
is_plain-segment [] h = refl
is_plain-segment (c ∷ t) h = ground (arith, is_plain-segment t)

-- A text after one that is known, and before one that is.
pub is_plain-end : (a t : Text) → is_plain a ≡ true → IsSegment t → is_plain (a ++ t) ≡ true
is_plain-end a t h k = is_plain-append a t h (is_plain-segment t k.is_plain)

pub is_plain-middle :
    (a t b : Text)
    → is_plain a ≡ true
    → IsSegment t
    → is_plain b ≡ true
    → is_plain (a ++ (t ++ b)) ≡ true
is_plain-middle a t b h k l =
    is_plain-append a (t ++ b) h (is_plain-append t b (is_plain-segment t k.is_plain) l)
