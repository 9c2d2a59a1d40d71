-- ===== src/Prelude/Strings.antt =====
-- Texts as lists of UTF-16 code units, with the JavaScript functions that the pages call on them.
-- `toLowerCase` and `toUpperCase` are those of ASCII.
pub mod Commas
pub mod Paths
use Prim.Native.Char.{code}
use Prim.Native.String.{String}
use Prim.Native.Nat.{ℕ, zero, suc, ◌+◌, ◌-◌}
use mathlib.Core.Path.{◌≡◌, refl}
use mathlib.Core.Logic.{◌↔◌, inl, inr}
use mathlib.Core.Bool.{Bool, true, false, ◌&&◌, ◌||◌}
use mathlib.Core.List.{List, [], ◌∷◌, ◌++◌, map, reverse}
use native.Mathlib.Omega.{arith}
use jjudge.Prelude.Tests.{leb, ◌==◌, if◌then◌else◌, Bool-cases}
use jjudge.Prelude.Lists.{length}

abbrev pub Text : Type 0
Text = List ℕ

abbrev pub codes : String → Text
codes String.[] = []
codes (String.◌∷◌ c s) = code c ∷ codes s

-- A literal of the source; shut, so that statements show it as one name.
unfoldable pub lit : String → Text
lit s = codes s

-- `s === t`
unfoldable pub text_eq : Text → Text → Bool
text_eq [] [] = true
text_eq (c ∷ s) (d ∷ t) = c == d && text_eq s t
text_eq _ _ = false

pub text_eq_sound : (s t : Text) → text_eq s t ≡ true → s ≡ t
unfolding text_eq
text_eq_sound [] [] h = refl
text_eq_sound (c ∷ s) (d ∷ t) h = ground (arith, text_eq_sound s t)
text_eq_sound [] (d ∷ t) h = cc
text_eq_sound (c ∷ s) [] h = cc

pub text_eq_refl : (s : Text) → text_eq s s ≡ true
unfolding text_eq
text_eq_refl [] = refl
text_eq_refl (c ∷ s) = ground (arith, text_eq_refl s)

pub text_eq_iff : (s t : Text) → (text_eq s t ≡ true) ↔ (s ≡ t)
text_eq_iff s t = (text_eq_sound s t, λ e. rw e (text_eq_refl t))

-- `if (s)`: the empty string is false.
abbrev pub truthy : Text → Bool
truthy [] = false
truthy (c ∷ s) = true

lower_unit : ℕ → ℕ
lower_unit c = if leb b'A' c && leb c b'Z' then c + 32 else c

upper_unit : ℕ → ℕ
upper_unit c = if leb b'a' c && leb c b'z' then c - 32 else c

unfoldable pub to_lower_case : Text → Text
unfolding lower_unit
to_lower_case = map lower_unit

unfoldable pub to_upper_case : Text → Text
unfolding upper_unit
to_upper_case = map upper_unit

lower_unit_idem : (c : ℕ) → lower_unit (lower_unit c) ≡ lower_unit c
unfolding lower_unit
lower_unit_idem c = ground arith

pub to_lower_case_idem : (s : Text) → to_lower_case (to_lower_case s) ≡ to_lower_case s
unfolding to_lower_case
to_lower_case_idem [] = refl
to_lower_case_idem (c ∷ s) = cc (lower_unit_idem c, to_lower_case_idem s)

-- The white space that `trim` removes.
is_space : ℕ → Bool
is_space c =
    leb 9 c && leb c 13
    || c == 32
    || c == 160
    || c == 0x1680
    || leb 0x2000 c && leb c 0x200a
    || c == 0x2028
    || c == 0x2029
    || c == 0x202f
    || c == 0x205f
    || c == 0x3000
    || c == 0xfeff

pub drop_spaces : Text → Text
drop_spaces [] = []
drop_spaces (c ∷ s) = if is_space c then drop_spaces s else c ∷ s

unfoldable pub trim : Text → Text
unfolding drop_spaces is_space
trim s = reverse (drop_spaces (reverse (drop_spaces s)))

unfoldable pub starts_with : Text → Text → Bool
starts_with [] s = true
starts_with (c ∷ t) [] = false
starts_with (c ∷ t) (d ∷ s) = c == d && starts_with t s

-- `s.includes(t)`
unfoldable pub includes : Text → Text → Bool
unfolding starts_with
includes [] t = starts_with t []
includes (c ∷ s) t = starts_with t (c ∷ s) || includes s t

unfoldable pub push_head : ℕ → List Text → List Text
push_head c [] = (c ∷ []) ∷ []
push_head c (p ∷ ps) = (c ∷ p) ∷ ps

-- `s.split(sep)` for a separator of one character.
unfoldable pub split : ℕ → Text → List Text
unfolding push_head
split sep [] = [] ∷ []
split sep (c ∷ s) = let rest = split sep s in if c == sep then [] ∷ rest else push_head c rest

-- `s.replace(/from/g, to)` for single characters.
unfoldable pub replace_all : ℕ → ℕ → Text → Text
replace_all from to = map (λ c. if c == from then to else c)

abbrev pub replicate : ℕ → ℕ → Text
replicate zero c = []
replicate (suc n) c = c ∷ replicate n c

-- `s.padEnd(n, c)` and `s.padStart(n, c)`
unfoldable pub pad_end : Text → ℕ → ℕ → Text
pad_end s n c = s ++ replicate (n - length s) c

unfoldable pub pad_start : Text → ℕ → ℕ → Text
pad_start s n c = replicate (n - length s) c ++ s

-- `parts.join(sep)`
unfoldable pub join : Text → List Text → Text
join sep [] = []
join sep (p ∷ []) = p
join sep (p ∷ (q ∷ ps)) = p ++ (sep ++ join sep (q ∷ ps))

-- `t` is a part of `s`.
abbrev pub Contains : Text → Text → Type 0
Contains s t = (a : Text) × (b : Text) × (s ≡ a ++ (t ++ b))

pub starts_with_sound : (t s : Text) → starts_with t s ≡ true → (b : Text) × (s ≡ t ++ b)
unfolding starts_with
starts_with_sound [] s h = (s, refl)
starts_with_sound (c ∷ t) [] h = cc
starts_with_sound (c ∷ t) (d ∷ s) h =
    let (b, e) = starts_with_sound t s (ground arith) in (b, ground arith)

pub starts_with-append : (t b : Text) → starts_with t (t ++ b) ≡ true
unfolding starts_with
starts_with-append [] b = refl
starts_with-append (c ∷ t) b = ground (arith, starts_with-append t b)

includes_sound : (s t : Text) → includes s t ≡ true → Contains s t
unfolding includes
includes_sound [] t h = let (b, e) = starts_with_sound t [] h in ([], b, e)
includes_sound (c ∷ s) t h = elim (Bool-cases (starts_with t (c ∷ s))) [
  | inl e ↦ let (b, q) = starts_with_sound t (c ∷ s) e in ([], b, q)
  | inr e ↦ let (a, b, q) = includes_sound s t (ground arith) in (c ∷ a, b, cc q)
]

includes-append : (a t b : Text) → includes (a ++ (t ++ b)) t ≡ true
unfolding includes starts_with
includes-append [] [] [] = refl
includes-append [] [] (d ∷ b) = refl
includes-append [] (c ∷ t) b = ground (arith, starts_with-append t b)
includes-append (d ∷ a) t b = ground (arith, includes-append a t b)

pub includes_iff : (s t : Text) → (includes s t ≡ true) ↔ Contains s t
includes_iff s t = (includes_sound s t, λ (a, b, e). rw e (includes-append a t b))
