-- ===== src/Prelude/Decimal.antt =====
-- `String(n)` for a natural number, and what it is read back as.
use Prim.Native.Nat.{ℕ, zero, suc, ◌+◌, ◌-◌, ◌*◌, ◌/◌, ◌%◌, ◌≤◌, ◌<◌}
use mathlib.Core.Path.{◌≡◌, refl, ap, sym, ◌∙◌}
use mathlib.Core.Bool.{◌&&◌, true}
use mathlib.Core.List.{[], ◌∷◌, ◌++◌}
use native.Mathlib.Omega.{arith}
use jjudge.Prelude.Tests.{ltb, leb, if◌then◌else◌, Bool-cases}
use jjudge.Prelude.Lists.{All, All-append}
use jjudge.Prelude.Strings.{Text, replicate, truthy}
use mathlib.Core.Logic.{◌⊎◌, inl, inr}

-- With fuel: the number of digits is at most the number itself, plus one.
show_fuel : ℕ → ℕ → Text
show_fuel zero n = []
show_fuel (suc f) n =
    let rest = show_fuel f (n / 10) in
    if ltb n 10 then (48 + n) ∷ [] else rest ++ (48 + n % 10) ∷ []

unfoldable pub to_string : ℕ → Text
unfolding show_fuel
to_string n = show_fuel (suc n) n

value_from : ℕ → Text → ℕ
value_from acc [] = acc
value_from acc (c ∷ s) = value_from (acc * 10 + (c - 48)) s

pub value : Text → ℕ
value s = value_from 0 s

value_from-append :
    (acc : ℕ) (s t : Text) → value_from acc (s ++ t) ≡ value_from (value_from acc s) t
unfolding value_from
value_from-append acc [] t = refl
value_from-append acc (c ∷ s) t = value_from-append (acc * 10 + (c - 48)) s t

value-show_fuel : (f n : ℕ) → n < f → value_from 0 (show_fuel f n) ≡ n
unfolding show_fuel value_from
value-show_fuel zero n h = elim h [ ]
value-show_fuel (suc f) n h = elim (Bool-cases (ltb n 10)) [
  | inl e ↦ rw e (omega arith)
  | inr e ↦
      rw
        (
          e,
          value_from-append 0 (show_fuel f (n / 10)) ((48 + n % 10) ∷ []),
          value-show_fuel f (n / 10) (ground arith),
        )
        (omega arith)
]

-- A number is read back from its digits.
pub value-to_string : (n : ℕ) → value (to_string n) ≡ n
unfolding to_string value
value-to_string n = value-show_fuel (suc n) n (omega arith)

abbrev pub IsDigit : ℕ → Type 0
IsDigit c = (48 ≤ c) × (c ≤ 57)

show_fuel-digits : (f n : ℕ) → All IsDigit (show_fuel f n)
unfolding show_fuel
show_fuel-digits zero n = tt
show_fuel-digits (suc f) n = elim (Bool-cases (ltb n 10)) [
  | inl e ↦ rw e (ground arith)
  | inr e ↦ rw e (
      All-append IsDigit (show_fuel f (n / 10)) ((48 + n % 10) ∷ []) (show_fuel-digits f (n / 10))
        (omega arith))
]

pub to_string-digits : (n : ℕ) → All IsDigit (to_string n)
unfolding to_string
to_string-digits n = show_fuel-digits (suc n) n

-- The digits that a text begins with.
leading : Text → Text
leading [] = []
leading (c ∷ s) = if leb 48 c && leb c 57 then c ∷ leading s else []

leading-digits :
    (ds : Text) (c : ℕ) (s : Text)
    → All IsDigit ds
    → (c < 48) ⊎ (57 < c)
    → leading (ds ++ c ∷ s) ≡ ds
unfolding leading
leading-digits [] c s h k = ground arith
leading-digits (d ∷ ds) c s h k = ground (arith, leading-digits ds c s)

-- A number followed by a character that is no digit: the text determines the number and the rest.
pub to_string-injective :
    (n m : ℕ) (c : ℕ) (s t : Text)
    → (c < 48) ⊎ (57 < c)
    → to_string n ++ c ∷ s ≡ to_string m ++ c ∷ t
    → n ≡ m
to_string-injective n m c s t h e =
    let digits : to_string n ≡ to_string m =
      sym (leading-digits (to_string n) c s (to_string-digits n) h)
      ∙ ap leading e
      ∙ leading-digits (to_string m) c t (to_string-digits m) h in
    sym (value-to_string n) ∙ ap value digits ∙ value-to_string m

-- Zeros in front change nothing.
pub value-replicate : (n : ℕ) (s : Text) → value (replicate n b'0' ++ s) ≡ value s
unfolding value value_from
value-replicate zero s = refl
value-replicate (suc n) s = value-replicate n s

truthy-append : (t : Text) (c : ℕ) → truthy (t ++ c ∷ []) ≡ true
truthy-append [] c = refl
truthy-append (d ∷ t) c = refl

pub truthy-to_string : (n : ℕ) → truthy (to_string n) ≡ true
unfolding to_string show_fuel
truthy-to_string n = elim (Bool-cases (ltb n 10)) [
  | inl e ↦ rw e refl
  | inr e ↦ rw e (truthy-append (show_fuel n (n / 10)) (48 + n % 10))
]
