-- ===== src/ProblemEditor/Keys.antt =====
-- frontend/src/app/manager/problems/page.tsx, lines 56 to 60: the keys of the files of a form
-- belong to one testcase each.
use jjudge.Prelude.{
  ℕ, ◌+◌, ◌≡◌, ◌≢◌, refl, sym, false, ◌&&◌, [], ◌∷◌, ◌++◌, arith, ◌==◌, ==_iff, Text, lit, codes,
  to_string, to_string-injective, text_eq, text_eq_iff, text_eq_refl, inl, inr, Bool-cases,
}
use jjudge.ProblemEditor.Groups.{get_input_key, get_output_key}

append_cancel : (s t u : Text) → s ++ t ≡ s ++ u → t ≡ u
append_cancel [] t u e = e
append_cancel (c ∷ s) t u e = append_cancel s t u (cc)

-- The key of either kind.
key : Text → ℕ → ℕ → Text
key ext i j = lit "group_" ++ (to_string (i + 1) ++ (lit "_case_" ++ (to_string (j + 1) ++ ext)))

get_input_key_lem : (i j : ℕ) → get_input_key i j ≡ key (lit ".in") i j
unfolding key get_input_key
get_input_key_lem i j = refl

get_output_key_lem : (i j : ℕ) → get_output_key i j ≡ key (lit ".out") i j
unfolding key get_output_key
get_output_key_lem i j = refl

-- The group and the testcase, and then the extension, can be read off a key.
key-injective :
    (s t : Text) (i j k l : ℕ)
    → key (b'.' ∷ s) i j ≡ key (b'.' ∷ t) k l
    → (i ≡ k) × (j ≡ l) × (s ≡ t)
unfolding key lit
key-injective s t i j k l e =
    let e₁ = append_cancel (codes "group_") _ _ e in
    let same_group : i + 1 ≡ k + 1 =
      to_string-injective (i + 1) (k + 1) b'_' _ _ (inr (omega arith)) e₁ in
    let e₂ = append_cancel (to_string (k + 1)) _ _ (rw same_group at e₁) in
    let e₃ = append_cancel (codes "_case_") _ _ e₂ in
    let same_case : j + 1 ≡ l + 1 =
      to_string-injective (j + 1) (l + 1) b'.' _ _ (inl (omega arith)) e₃ in
    let e₄ = append_cancel (to_string (l + 1)) _ _ (rw same_case at e₃) in
    (omega arith, omega arith, append_cancel (b'.' ∷ []) s t e₄)

false_of_ne : (s t : Text) → s ≢ t → text_eq s t ≡ false
false_of_ne s t h = elim (Bool-cases (text_eq s t)) [
  | inl e ↦ absurd (h ((text_eq_iff s t).0 e))
  | inr e ↦ e
]

input_eq : (i j k l : ℕ) → get_input_key i j ≡ get_input_key k l → (i ≡ k) × (j ≡ l)
unfolding get_input_key key lit
input_eq i j k l e = let (p, q, _) = key-injective (codes "in") (codes "in") i j k l e in (p, q)

output_eq : (i j k l : ℕ) → get_output_key i j ≡ get_output_key k l → (i ≡ k) × (j ≡ l)
unfolding get_output_key key lit
output_eq i j k l e = let (p, q, _) = key-injective (codes "out") (codes "out") i j k l e in (p, q)

-- Two input keys are equal exactly for the same group and the same testcase.
pub text_eq-input_key :
    (i j k l : ℕ) → text_eq (get_input_key i j) (get_input_key k l) ≡ (i == k) && (j == l)
text_eq-input_key i j k l = elim (Bool-cases (i == k)) [
  | inl p ↦ elim (Bool-cases (j == l)) [
    | inl q ↦
        rw (
          (==_iff i k).0 p,
          (==_iff j l).0 q,
          text_eq_refl,
          (==_iff k k).1 refl,
          (==_iff l l).1 refl,
        )
    | inr q ↦ rw (p, q) (false_of_ne _ _ (λ e. ground (arith, input_eq i j k l e)))
  ]
  | inr p ↦ rw p (false_of_ne _ _ (λ e. ground (arith, input_eq i j k l e)))
]

pub text_eq-output_key :
    (i j k l : ℕ) → text_eq (get_output_key i j) (get_output_key k l) ≡ (i == k) && (j == l)
text_eq-output_key i j k l = elim (Bool-cases (i == k)) [
  | inl p ↦ elim (Bool-cases (j == l)) [
    | inl q ↦
        rw (
          (==_iff i k).0 p,
          (==_iff j l).0 q,
          text_eq_refl,
          (==_iff k k).1 refl,
          (==_iff l l).1 refl,
        )
    | inr q ↦ rw (p, q) (false_of_ne _ _ (λ e. ground (arith, output_eq i j k l e)))
  ]
  | inr p ↦ rw p (false_of_ne _ _ (λ e. ground (arith, output_eq i j k l e)))
]

input_ne_output : (i j k l : ℕ) → get_input_key i j ≢ get_output_key k l
unfolding get_input_key get_output_key key lit
input_ne_output i j k l e =
    let (_, _, x) = key-injective (codes "in") (codes "out") i j k l e in cc x

pub text_eq-input_key-output_key :
    (i j k l : ℕ) → text_eq (get_input_key i j) (get_output_key k l) ≡ false
text_eq-input_key-output_key i j k l = false_of_ne _ _ (input_ne_output i j k l)

pub text_eq-output_key-input_key :
    (i j k l : ℕ) → text_eq (get_output_key i j) (get_input_key k l) ≡ false
text_eq-output_key-input_key i j k l = false_of_ne _ _ (λ e. input_ne_output k l i j (sym e))

-- The metadata has a key of its own.
pub text_eq-key-metadata :
    (i j : ℕ)
    → (text_eq (get_input_key i j) (lit "metadata") ≡ false)
      × (text_eq (get_output_key i j) (lit "metadata") ≡ false)
unfolding get_input_key get_output_key lit text_eq
text_eq-key-metadata i j = (refl, refl)
