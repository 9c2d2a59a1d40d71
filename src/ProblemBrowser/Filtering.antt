-- ===== src/ProblemBrowser/Filtering.antt =====
-- frontend/src/app/problems/problems-client.tsx: which problems the filters keep.
use jjudge.Prelude.{
  ◌≡◌, refl, ap, ◌↔◌, true, false, not, ◌&&◌, List, [], ◌∷◌, map, Option, none, some, or_else,
  filter, All, arith, Text, text_eq_iff, truthy, to_lower_case, trim, includes_iff, Contains,
}
use jjudge.ProblemBrowser.{
  Problem, has, Filters, clear_all, title_includes, differs, has_tags, is_kept, filtered, is_chosen,
  has_any, has_filters,
}

-- What it means for a problem to pass.
abbrev pub TitleMatches : Text → Option Text → Type 0
TitleMatches [] title = Unit
TitleMatches (c ∷ q) none = ⊥
TitleMatches (c ∷ q) (some t) = Contains (to_lower_case t) (c ∷ q)

abbrev pub DifficultyMatches : Option Text → Option Text → Type 0
DifficultyMatches none difficulty = Unit
DifficultyMatches (some []) difficulty = Unit
DifficultyMatches (some (c ∷ d)) difficulty =
    to_lower_case (or_else difficulty []) ≡ to_lower_case (c ∷ d)

abbrev pub TagsMatch : List Text → List Text → Type 0
TagsMatch active tags = All (λ t. has (to_lower_case t) (map to_lower_case tags) ≡ true) active

abbrev pub Matches : Filters → Problem → Type 0
Matches f p =
    TitleMatches (to_lower_case (trim f.search)) p.title
    × DifficultyMatches f.active_difficulty p.difficulty
    × TagsMatch f.active_tags (or_else p.tags [])

title_iff :
    (q : Text) (title : Option Text)
    → ((truthy q && not (title_includes title q)) ≡ false) ↔ TitleMatches q title
unfolding title_includes
title_iff [] title = (λ e. tt, λ h. refl)
title_iff (c ∷ q) none = (λ e. cc, λ h. absurd h)
title_iff (c ∷ q) (some t) =
    let (to, from) = includes_iff (to_lower_case t) (c ∷ q) in
    (λ e. to (ground arith), λ h. rw (from h) refl)

difficulty_iff :
    (p : Problem) (d : Option Text) → (differs p d ≡ false) ↔ DifficultyMatches d p.difficulty
unfolding differs
difficulty_iff p none = (λ e. tt, λ h. refl)
difficulty_iff p (some []) = (λ e. tt, λ h. refl)
difficulty_iff p (some (c ∷ d)) =
    let (to, from) =
      text_eq_iff (to_lower_case (or_else p.difficulty [])) (to_lower_case (c ∷ d)) in
    (λ e. to (ground arith), λ h. rw (from h) refl)

tags_iff :
    (p : Problem) (active : List Text)
    → (has_tags p active ≡ true) ↔ TagsMatch active (or_else p.tags [])
unfolding has_tags
tags_iff p [] = (λ e. tt, λ h. refl)
tags_iff p (t ∷ ts) =
    let (to, from) = tags_iff p ts in
    (λ e. (ground arith, to (ground arith)), λ (h, k). rw (h, from k) refl)

-- A problem is kept exactly where its title holds the trimmed search text, its difficulty is the one
-- that is chosen, and each chosen tag is among its tags, all without regard to case; a search of white
-- space, a difficulty that is not chosen or empty, and an empty choice of tags ask for nothing.
pub is_kept_iff : (f : Filters) (p : Problem) → (is_kept f p ≡ true) ↔ Matches f p
unfolding is_kept
is_kept_iff f p =
    let q = to_lower_case (trim f.search) in
    let (to₁, from₁) = title_iff q p.title in
    let (to₂, from₂) = difficulty_iff p f.active_difficulty in
    let (to₃, from₃) = tags_iff p f.active_tags in
    (
      λ e. (to₁ (ground arith), to₂ (ground arith), to₃ (ground arith)),
      λ (h₁, h₂, h₃). rw (from₁ h₁, from₂ h₂) (from₃ h₃),
    )

filter-all :
    (f : Filters) (ps : List Problem)
    → ((p : Problem) → is_kept f p ≡ true)
    → filter (is_kept f) ps ≡ ps
filter-all f [] h = refl
filter-all f (p ∷ ps) h = rw (h p) (ap (λ qs. p ∷ qs) (filter-all f ps h))

title_free : (x : Text) (t : Option Text) → truthy x ≡ false → TitleMatches (to_lower_case x) t
unfolding to_lower_case
title_free [] t h = tt
title_free (c ∷ x) t h = cc

difficulty_free : (d e : Option Text) → is_chosen d ≡ false → DifficultyMatches d e
unfolding is_chosen
difficulty_free none e h = tt
difficulty_free (some []) e h = tt
difficulty_free (some (c ∷ d)) e h = cc

tags_free : (active tags : List Text) → has_any active ≡ false → TagsMatch active tags
unfolding has_any
tags_free [] tags h = tt
tags_free (t ∷ ts) tags h = cc

no_filters-is_kept : (f : Filters) (p : Problem) → has_filters f ≡ false → is_kept f p ≡ true
unfolding has_filters
no_filters-is_kept f p h = (is_kept_iff f p).1 (
    (
      title_free (trim f.search) p.title (ground arith),
      difficulty_free f.active_difficulty p.difficulty (ground arith),
      tags_free f.active_tags (or_else p.tags []) (ground arith),
    ))

-- Where the page offers no "CLEAR FILTERS", it lists every problem, in the order of the server; and a
-- click on "CLEAR FILTERS" brings it there.
pub filtered-clear_all :
    (f : Filters) (ps : List Problem)
    → (has_filters f ≡ false → filtered f ps ≡ ps)
      × (has_filters (clear_all f) ≡ false)
      × (filtered (clear_all f) ps ≡ ps)
unfolding filtered clear_all has_filters trim
filtered-clear_all f ps =
    let none_left : has_filters (clear_all f) ≡ false = refl in
    (
      λ h. filter-all f ps (λ p. no_filters-is_kept f p h),
      none_left,
      filter-all (clear_all f) ps (λ p. no_filters-is_kept (clear_all f) p none_left),
    )
