-- ===== src/Prelude/Sorting.antt =====
-- `xs.slice().sort((a, b) => key(a) - key(b))`: the stable sort by a number.
use mathlib.Core.List.{List, [], ◌∷◌, Perm}
use mathlib.Core.List.Perm
use mathlib.Core.Logic.{inl, inr}
use Prim.Native.Nat.{ℕ, ◌≤◌}
use native.Mathlib.Omega.{arith}
use jjudge.Prelude.Tests.{leb, if◌then◌else◌, Bool-cases}
use mathlib.Core.Bool.{Bool, true, false, ◌||◌}
use mathlib.Core.Path.{◌≡◌, refl}
use jjudge.Prelude.Lists.{All, All-map, any}

module _ {A : Type 0} (le : A → A → Bool) where
  -- In front of the first element that does not come before it.
  insert : A → List A → List A
  insert x [] = x ∷ []
  insert x (y ∷ ys) = if le x y then x ∷ y ∷ ys else y ∷ insert x ys

  -- The stable sort by a comparison.
  unfoldable pub sort_with : List A → List A
  unfolding insert
  sort_with [] = []
  sort_with (x ∷ xs) = insert x (sort_with xs)

  insert-perm : (x : A) (ys : List A) → Perm (insert x ys) (x ∷ ys)
  unfolding insert
  insert-perm x [] = Perm.refl (x ∷ [])
  insert-perm x (y ∷ ys) = elim (Bool-cases (le x y)) [
    | inl e ↦ rw e (Perm.refl (x ∷ y ∷ ys))
    | inr e ↦ rw e (Perm.trans (Perm.cons y (insert-perm x ys)) (Perm.swap x y ys))
  ]

  pub sort_with-perm : (xs : List A) → Perm (sort_with xs) xs
  unfolding sort_with
  sort_with-perm [] = Perm.refl []
  sort_with-perm (x ∷ xs) =
      Perm.trans (insert-perm x (sort_with xs)) (Perm.cons x (sort_with-perm xs))

  insert-All : (P : A → Type 0) (x : A) (ys : List A) → P x → All P ys → All P (insert x ys)
  unfolding insert
  insert-All P x [] p h = (p, tt)
  insert-All P x (y ∷ ys) p (q, h) = elim (Bool-cases (le x y)) [
    | inl e ↦ rw e (p, (q, h))
    | inr e ↦ rw e (q, insert-All P x ys p h)
  ]

  any-insert : (p : A → Bool) (x : A) (ys : List A) → any p (insert x ys) ≡ (p x || any p ys)
  unfolding insert
  any-insert p x [] = refl
  any-insert p x (y ∷ ys) = ground (arith, any-insert p x ys)

  -- Sorting keeps what is in the list.
  pub any-sort_with : (p : A → Bool) (xs : List A) → any p (sort_with xs) ≡ any p xs
  unfolding sort_with
  any-sort_with p [] = refl
  any-sort_with p (x ∷ xs) = cc (any-insert p x (sort_with xs), any-sort_with p xs)

-- Each element is related to all those behind it.
abbrev pub IsSorted {ℓ κ} : {A : Type ℓ} → (A → A → Type κ) → List A → Type κ
IsSorted R [] = Unit
IsSorted R (x ∷ xs) = All (R x) xs × IsSorted R xs

-- A relation that the comparison decides one way or the other.
module _ {A : Type 0} (le : A → A → Bool) (R : A → A → Type 0)
    (yes_le : (x y : A) → le x y ≡ true → R x y) (no_le : (x y : A) → le x y ≡ false → R y x)
    (R_trans : (x y z : A) → R x y → R y z → R x z) where
  insert-IsSorted : (x : A) (ys : List A) → IsSorted R ys → IsSorted R (insert le x ys)
  unfolding insert
  insert-IsSorted x [] h = (tt, tt)
  insert-IsSorted x (y ∷ ys) (p, h) = elim (Bool-cases (le x y)) [
    | inl e ↦ rw e ((yes_le x y e, All-map ys (λ z k. R_trans x y z (yes_le x y e) k) p), (p, h))
    | inr e ↦ rw e (insert-All le (R y) x ys (no_le x y e) p, insert-IsSorted x ys h)
  ]

  pub sort_with-IsSorted : (xs : List A) → IsSorted R (sort_with le xs)
  unfolding sort_with
  sort_with-IsSorted [] = tt
  sort_with-IsSorted (x ∷ xs) = insert-IsSorted x (sort_with le xs) (sort_with-IsSorted xs)

module _ {A : Type 0} (key : A → ℕ) where
  unfoldable pub sort_by : List A → List A
  sort_by = sort_with (λ x y. leb (key x) (key y))

  pub any-sort_by : (p : A → Bool) (xs : List A) → any p (sort_by xs) ≡ any p xs
  unfolding sort_by
  any-sort_by = any-sort_with (λ x y. leb (key x) (key y))

  pub sort_by-perm : (xs : List A) → Perm (sort_by xs) xs
  unfolding sort_by
  sort_by-perm = sort_with-perm (λ x y. leb (key x) (key y))

  -- Each element's key is at most those behind it.
  abbrev pub IsSortedBy : List A → Type 0
  IsSortedBy = IsSorted (λ x y. key x ≤ key y)

  pub sort_by-IsSortedBy : (xs : List A) → IsSortedBy (sort_by xs)
  unfolding sort_by
  sort_by-IsSortedBy =
      sort_with-IsSorted (λ x y. leb (key x) (key y)) (λ x y. key x ≤ key y) (λ x y e. ground arith)
        (λ x y e. ground arith) (λ x y z h k. omega arith)
