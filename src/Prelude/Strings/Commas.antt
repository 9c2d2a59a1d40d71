-- ===== src/Prelude/Strings/Commas.antt =====
-- Lists that are shown as one text, separated by commas, and read back from it, as the forms do with
-- the tags: `tags.join(", ")`, and `text.split(",").map((t) => t.trim()).filter(Boolean)`.
use mathlib.Core.Path.{◌≡◌, refl, ap}
use mathlib.Core.Bool.{true, not}
use mathlib.Core.List.{List, [], ◌∷◌, ◌++◌, map}
use native.Mathlib.Omega.{arith}
use mathlib.Core.Logic.{inl, inr}
use jjudge.Prelude.Tests.{◌==◌, Bool-cases}
use jjudge.Prelude.Lists.{filter, all, All}
use jjudge.Prelude.Strings.{Text, lit, truthy, trim, drop_spaces, is_space, split, push_head, join}

-- A text that such a list can carry.
pub record IsTag (t : Text) : Type 0 where
  pub is_trimmed : trim t ≡ t
  pub is_truthy : truthy t ≡ true
  pub has_no_comma : all (λ c. not (c == b',')) t ≡ true

split-cons : (s : Text) → (p : Text) × (ps : List Text) × (split b',' s ≡ p ∷ ps)
unfolding split push_head
split-cons [] = ([], [], refl)
split-cons (c ∷ s) =
    let (p, ps, e) = split-cons s in
    elim (Bool-cases (c == b',')) [
      | inl h ↦ ([], split b',' s, rw h refl)
      | inr h ↦ (c ∷ p, ps, rw h (rw e refl))
    ]

split-no_comma : (p : Text) → all (λ c. not (c == b',')) p ≡ true → split b',' p ≡ p ∷ []
unfolding split push_head
split-no_comma [] h = refl
split-no_comma (c ∷ p) h = ground (arith, split-no_comma p)

split-append :
    (p r : Text)
    → all (λ c. not (c == b',')) p ≡ true
    → split b',' (p ++ b',' ∷ r) ≡ p ∷ split b',' r
unfolding split push_head
split-append [] r h = refl
split-append (c ∷ p) r h = ground (arith, split-append p r)

-- The space after a comma is trimmed away.
trim-split_space : (r : Text) → map trim (split b',' (b' ' ∷ r)) ≡ map trim (split b',' r)
unfolding split push_head trim drop_spaces is_space
trim-split_space r = let (p, ps, e) = split-cons r in rw e refl

split-join_nil : filter truthy (map trim (split b',' [])) ≡ []
unfolding split trim drop_spaces
split-join_nil = refl

-- A list of tags is read back from its text.
pub split-join :
    (tags : List Text)
    → All IsTag tags
    → filter truthy (map trim (split b',' (join (lit ", ") tags))) ≡ tags
unfolding join lit
split-join [] h = split-join_nil
split-join (t ∷ []) (k, h) =
    let s = split-no_comma t k.has_no_comma in rw s (rw k.is_trimmed (rw k.is_truthy refl))
split-join (t ∷ (u ∷ tags)) (k, h) =
    let s = split-append t (b' ' ∷ join (lit ", ") (u ∷ tags)) k.has_no_comma in
    let e = trim-split_space (join (lit ", ") (u ∷ tags)) in
    rw s (rw e (rw k.is_trimmed (rw k.is_truthy (ap (λ l. t ∷ l) (split-join (u ∷ tags) h)))))
