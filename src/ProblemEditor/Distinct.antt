-- ===== src/ProblemEditor/Distinct.antt =====
-- Lists of ids without repetition, under the operations of the form.
use jjudge.Prelude.{
  ℕ, ◌+◌, ◌≤◌, ◌<◌, ◌≡◌, ◌≢◌, refl, not, List, [], ◌∷◌, ◌++◌, map, arith, ◌==◌, ==_iff,
  if◌then◌else◌, filter, length, All, Bool-cases, inl, inr,
}

module _ {A : Type 0} (id : A → ℕ) where
  -- No element has the id `i`.
  abbrev pub Absent : ℕ → List A → Type 0
  Absent i = All (λ x. id x ≢ i)

  -- The ids are pairwise different.
  abbrev pub Distinct : List A → Type 0
  Distinct [] = Unit
  Distinct (x ∷ xs) = Absent (id x) xs × Distinct xs

  pub Absent-of_bound : (n : ℕ) (xs : List A) → All (λ x. id x < n) xs → Absent n xs
  Absent-of_bound n [] h = tt
  Absent-of_bound n (x ∷ xs) (p, h) = (omega arith, Absent-of_bound n xs h)

  Absent-append : (i : ℕ) (xs : List A) (y : A) → Absent i xs → id y ≢ i → Absent i (xs ++ y ∷ [])
  Absent-append i [] y h k = (k, tt)
  Absent-append i (x ∷ xs) y (p, h) k = (p, Absent-append i xs y h k)

  -- A fresh element at the end.
  pub Distinct-append :
      (n : ℕ) (xs : List A) (y : A)
      → Distinct xs
      → All (λ x. id x < n) xs
      → id y ≡ n
      → Distinct (xs ++ y ∷ [])
  Distinct-append n [] y d h e = (tt, tt)
  Distinct-append n (x ∷ xs) y (a, d) (p, h) e =
      (Absent-append (id x) xs y a (omega arith), Distinct-append n xs y d h e)

  abbrev pub without : ℕ → List A → List A
  without i = filter (λ x. not (id x == i))

  pub All-without {ℓ} : (P : A → Type ℓ) (i : ℕ) (xs : List A) → All P xs → All P (without i xs)
  All-without P i [] h = tt
  All-without P i (x ∷ xs) (p, h) = elim (Bool-cases (id x == i)) [
    | inl e ↦ rw e (All-without P i xs h)
    | inr e ↦ rw e (p, All-without P i xs h)
  ]

  pub Distinct-without : (i : ℕ) (xs : List A) → Distinct xs → Distinct (without i xs)
  Distinct-without i [] h = tt
  Distinct-without i (x ∷ xs) (a, d) = elim (Bool-cases (id x == i)) [
    | inl e ↦ rw e (Distinct-without i xs d)
    | inr e ↦ rw e (All-without (λ y. id y ≢ id x) i xs a, Distinct-without i xs d)
  ]

  without-Absent : (i : ℕ) (xs : List A) → Absent i xs → without i xs ≡ xs
  without-Absent i [] h = refl
  without-Absent i (x ∷ xs) (p, h) = ground (arith, without-Absent i xs h)

  -- Of distinct elements at most one goes.
  pub length-without : (i : ℕ) (xs : List A) → Distinct xs → length xs ≤ length (without i xs) + 1
  length-without i [] h = omega arith
  length-without i (x ∷ xs) (a, d) = elim (Bool-cases (id x == i)) [
    | inl e ↦ rw (e, without-Absent i xs (rw ((==_iff _ _).0 e) at a)) (omega arith)
    | inr e ↦ rw e (omega (arith, length-without i xs d))
  ]

  -- An update that keeps the ids.
  abbrev pub at_id : ℕ → (A → A) → List A → List A
  at_id i f = map (λ x. if id x == i then f x else x)

  module _ (f : A → A) (keeps : (x : A) → id (f x) ≡ id x) where
    Absent-at_id : (i j : ℕ) (xs : List A) → Absent j xs → Absent j (at_id i f xs)
    Absent-at_id i j [] h = tt
    Absent-at_id i j (x ∷ xs) (p, h) = (ground (arith, keeps x), Absent-at_id i j xs h)

    pub Distinct-at_id : (i : ℕ) (xs : List A) → Distinct xs → Distinct (at_id i f xs)
    Distinct-at_id i [] h = tt
    Distinct-at_id i (x ∷ xs) (a, d) = elim (Bool-cases (id x == i)) [
      | inl e ↦ rw (e, keeps) (Absent-at_id i (id x) xs a, Distinct-at_id i xs d)
      | inr e ↦ rw e (Absent-at_id i (id x) xs a, Distinct-at_id i xs d)
    ]

  pub All-at_id {ℓ κ} :
      (P : A → Type ℓ) (Q : A → Type κ) (f : A → A) (i : ℕ) (xs : List A)
      → ((x : A) → P x → Q (f x))
      → ((x : A) → P x → Q x)
      → All P xs
      → All Q (at_id i f xs)
  All-at_id P Q f i [] k m h = tt
  All-at_id P Q f i (x ∷ xs) k m (p, h) = elim (Bool-cases (id x == i)) [
    | inl e ↦ rw e (k x p, All-at_id P Q f i xs k m h)
    | inr e ↦ rw e (m x p, All-at_id P Q f i xs k m h)
  ]
