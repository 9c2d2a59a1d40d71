-- ===== src/Prelude/Lists.antt =====
-- Lists over the native numbers, and the predicates on lists that the pages share.
use Prim.Native.Nat.{ℕ, zero, suc, ◌+◌}
use mathlib.Core.Path.{◌≡◌, refl, ap}
use mathlib.Core.Bool.{Bool, true, false, ◌&&◌, ◌||◌}
use mathlib.Core.List.{List, [], ◌∷◌, ◌++◌, map}
use mathlib.Core.Option.{Option, none, some}
use native.Mathlib.Omega.{arith}
use jjudge.Prelude.Tests.{if◌then◌else◌}

module _ {ℓ} {A : Type ℓ} where
  abbrev pub length : List A → ℕ
  length [] = 0
  length (x ∷ xs) = suc (length xs)

  abbrev pub get_elem? : List A → ℕ → Option A
  get_elem? [] i = none
  get_elem? (x ∷ xs) zero = some x
  get_elem? (x ∷ xs) (suc i) = get_elem? xs i

  -- A write out of bounds changes nothing.
  abbrev pub set : List A → ℕ → A → List A
  set [] i v = []
  set (x ∷ xs) zero v = v ∷ xs
  set (x ∷ xs) (suc i) v = x ∷ set xs i v

  abbrev pub take : ℕ → List A → List A
  take zero xs = []
  take (suc n) [] = []
  take (suc n) (x ∷ xs) = x ∷ take n xs

  pub length-append : (xs ys : List A) → length (xs ++ ys) ≡ length xs + length ys
  length-append [] ys = omega arith
  length-append (x ∷ xs) ys = omega (arith, length-append xs ys)

  -- `xs.filter(p)`, `xs.some(p)` and `xs.every(p)`.
  abbrev pub filter : (A → Bool) → List A → List A
  filter p [] = []
  filter p (x ∷ xs) = if p x then x ∷ filter p xs else filter p xs

  abbrev pub any : (A → Bool) → List A → Bool
  any p [] = false
  any p (x ∷ xs) = p x || any p xs

  abbrev pub all : (A → Bool) → List A → Bool
  all p [] = true
  all p (x ∷ xs) = p x && all p xs

  -- `xs.map((x, index) => f(index, x))`, counted from `i`.
  abbrev pub map_from {κ} : {B : Type κ} → (ℕ → A → B) → ℕ → List A → List B
  map_from f i [] = []
  map_from f i (x ∷ xs) = f i x ∷ map_from f (suc i) xs

  -- `o ?? d`
  abbrev pub or_else : Option A → A → A
  or_else none d = d
  or_else (some x) d = x

pub length-map {ℓ κ} :
    {A : Type ℓ} {B : Type κ} (f : A → B) (xs : List A) → length (map f xs) ≡ length xs
length-map f [] = refl
length-map f (x ∷ xs) = ap suc (length-map f xs)

module _ {ℓ κ} {A : Type ℓ} (P : A → Type κ) where
  abbrev pub All : List A → Type κ
  All [] = Unit
  All (x ∷ xs) = P x × All xs

  -- One element exchanged for another.
  pub All-exchange :
      (xs : List A) {x y : A} (ys : List A) → All (xs ++ x ∷ ys) → (P x → P y) → All (xs ++ y ∷ ys)
  All-exchange [] ys (p, h) f = (f p, h)
  All-exchange (z ∷ xs) ys (p, h) f = (p, All-exchange xs ys h f)

  pub All-middle : (xs : List A) {x : A} (ys : List A) → All (xs ++ x ∷ ys) → P x
  All-middle [] ys (p, h) = p
  All-middle (z ∷ xs) ys (p, h) = All-middle xs ys h

  pub All-append : (xs ys : List A) → All xs → All ys → All (xs ++ ys)
  All-append [] ys h k = k
  All-append (x ∷ xs) ys (p, h) k = (p, All-append xs ys h k)

pub All-map {ℓ κ μ} :
    {A : Type ℓ} {P : A → Type κ} {Q : A → Type μ} (xs : List A)
    → ((x : A) → P x → Q x)
    → All P xs
    → All Q xs
All-map [] f h = tt
All-map (x ∷ xs) f (p, h) = (f x p, All-map xs f h)
