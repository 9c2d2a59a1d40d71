-- ===== src/ProblemBrowser/Pills.antt =====
-- frontend/src/app/problems/page.tsx: the difficulties and tags that the filters offer are those of
-- the problems.
use jjudge.Prelude.{
  ◌≡◌, refl, sym, ap, ◌∙◌, inl, inr, true, ◌||◌, List, [], ◌∷◌, map, Option, none, some, or_else,
  any, arith, Bool-cases, Text, text_eq, text_eq_sound, text_eq_refl, to_lower_case, trim,
}
use jjudge.Prelude.Sorting.{any-sort_by, any-sort_with}
use jjudge.ProblemBrowser.{
  Problem, has, add, unique, difficulties, all_tags, text_leb, Filters, toggle_tag, pick_difficulty,
  clear_all, is_kept, add_all, difficulty_names, tag_names, difficulty_order,
}
use jjudge.ProblemBrowser.Filtering.{is_kept_iff, DifficultyMatches}
use jjudge.ProblemBrowser.Tags.{has-add, any-append}

has-add_all : (x : Text) (seen xs : List Text) → has x (add_all seen xs) ≡ (has x seen || has x xs)
unfolding add_all
has-add_all x seen [] = ground arith
has-add_all x seen (y ∷ ys) = ground (arith, has-add_all x (add y seen) ys, has-add x y seen)

has-unique : (x : Text) (xs : List Text) → has x (unique xs) ≡ has x xs
unfolding unique
has-unique x xs = has-add_all x [] xs

has-difficulties :
    (d : Text) (ps : List Problem) → has d (difficulties ps) ≡ has d (difficulty_names ps)
unfolding difficulties
has-difficulties d ps =
    any-sort_by (λ d. difficulty_order (to_lower_case d)) (text_eq d) (unique (difficulty_names ps))
    ∙ has-unique d (difficulty_names ps)

has-all_tags : (t : Text) (ps : List Problem) → has t (all_tags ps) ≡ has t (tag_names ps)
unfolding all_tags
has-all_tags t ps =
    any-sort_with text_leb (text_eq t) (unique (tag_names ps)) ∙ has-unique t (tag_names ps)

-- Only one difficulty, or only one tag, is chosen.
abbrev pub only_difficulty : Text → Filters
only_difficulty d = record { search = []; active_difficulty = some d; active_tags = [] }

abbrev pub only_tag : Text → Filters
only_tag t = record { search = []; active_difficulty = none; active_tags = t ∷ [] }

difficulty_matches :
    (d : Text) (e : Option Text) → text_eq d (or_else e []) ≡ true → DifficultyMatches (some d) e
difficulty_matches [] e h = tt
difficulty_matches (c ∷ d) e h = sym (ap to_lower_case (text_eq_sound (c ∷ d) (or_else e []) h))

difficulty-kept :
    (d : Text) (p : Problem)
    → text_eq d (or_else p.difficulty []) ≡ true
    → is_kept (only_difficulty d) p ≡ true
unfolding trim to_lower_case
difficulty-kept d p h =
    (is_kept_iff (only_difficulty d) p).1 ((tt, difficulty_matches d p.difficulty h, tt))

has-map_lower :
    (t : Text) (ts : List Text)
    → has t ts ≡ true
    → has (to_lower_case t) (map to_lower_case ts) ≡ true
has-map_lower t [] h = cc
has-map_lower t (x ∷ xs) h = elim (Bool-cases (text_eq t x)) [
  | inl e ↦
      rw (ap (λ z. text_eq (to_lower_case t) (to_lower_case z)) (sym (text_eq_sound t x e)))
        (rw (text_eq_refl (to_lower_case t)) refl)
  | inr e ↦ ground (arith, has-map_lower t xs)
]

tag-kept :
    (t : Text) (p : Problem) → has t (or_else p.tags []) ≡ true → is_kept (only_tag t) p ≡ true
unfolding trim to_lower_case
tag-kept t p h =
    (is_kept_iff (only_tag t) p).1 ((tt, tt, (has-map_lower t (or_else p.tags []) h, tt)))

named_difficulty :
    (d : Text) (ps : List Problem)
    → has d (difficulty_names ps) ≡ true
    → any (is_kept (only_difficulty d)) ps ≡ true
unfolding difficulty_names
named_difficulty d [] h = cc
named_difficulty d (p ∷ ps) h = ground (arith, difficulty-kept d p, named_difficulty d ps)

named_tag :
    (t : Text) (ps : List Problem)
    → has t (tag_names ps) ≡ true
    → any (is_kept (only_tag t)) ps ≡ true
unfolding tag_names
named_tag t [] h = cc
named_tag t (p ∷ ps) h =
    ground (
      arith,
      tag-kept t p,
      named_tag t ps,
      any-append (text_eq t) (or_else p.tags []) (tag_names ps),
    )

-- No filter that the page offers leads to an empty list: with one of the listed difficulties chosen,
-- or one of the listed tags, and nothing else, at least one problem is kept.
pub offered-is_kept :
    (x : Text) (f : Filters) (ps : List Problem)
    → (has x (difficulties ps) ≡ true → any (is_kept (pick_difficulty x (clear_all f))) ps ≡ true)
      × (has x (all_tags ps) ≡ true → any (is_kept (toggle_tag x (clear_all f))) ps ≡ true)
unfolding clear_all toggle_tag pick_difficulty
offered-is_kept x f ps = (
  λ h. named_difficulty x ps (sym (has-difficulties x ps) ∙ h),
  λ h. named_tag x ps (sym (has-all_tags x ps) ∙ h),
)
