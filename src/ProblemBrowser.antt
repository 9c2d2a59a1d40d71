-- ===== src/ProblemBrowser.antt =====
-- frontend/src/app/problems/page.tsx and problems-client.tsx: the list of problems with its filters.
-- The elements of a `Set` are a list in the order in which they were added.
pub mod Filtering
pub mod Tags
pub mod Pills
pub mod Table
mod Tests
use jjudge.Prelude.{
  ℕ, Bool, true, false, not, ◌&&◌, ◌||◌, List, [], ◌∷◌, ◌++◌, map, Option, none, some, or_else,
  if◌then◌else◌, filter, any, all, Text, lit, text_eq, truthy, to_lower_case, trim, includes, ltb,
}
use jjudge.Prelude.Sorting.{sort_by, sort_with}

pub record Problem : Type 0 where
  pub id : Option Text
  pub title : Option Text
  pub slug : Option Text
  pub difficulty : Option Text
  pub tags : Option (List Text)

-- What the server sends: the list, or an object that has it under one of three keys, or else.
pub data Body : Type 0 where
  array : List Problem → Body
  wrapped : Option (List Problem) → Option (List Problem) → Option (List Problem) → Body
  other : Body

-- The fields `problems`, `data` and `items`, of which the first that is a list counts.
unwrapped : Body → List Problem
unwrapped (array ps) = ps
unwrapped (wrapped (some ps) _ _) = ps
unwrapped (wrapped none (some ps) _) = ps
unwrapped (wrapped none none (some ps)) = ps
unwrapped (wrapped none none none) = []
unwrapped other = []

unfoldable pub fetch_problems : Option Body → Option (List Problem)
unfolding unwrapped
fetch_problems none = none
fetch_problems (some b) = some (unwrapped b)

-- `set.has(t)` and `set.add(t)`
abbrev pub has : Text → List Text → Bool
has t = any (text_eq t)

abbrev pub add : Text → List Text → List Text
add t seen = if has t seen then seen else seen ++ t ∷ []

-- `Array.from(new Set(xs))`
add_all : List Text → List Text → List Text
add_all seen [] = seen
add_all seen (x ∷ xs) = add_all (add x seen) xs

unfoldable pub unique : List Text → List Text
unfolding add_all
unique = add_all []

difficulty_order : Text → ℕ
difficulty_order d =
    if text_eq d (lit "easy")
    then 0
    else if text_eq d (lit "medium")
    then 1
    else if text_eq d (lit "hard")
    then 2
    else 99

difficulty_names : List Problem → List Text
difficulty_names [] = []
difficulty_names (p ∷ ps) =
    let rest = difficulty_names ps in
    let d = or_else p.difficulty [] in if truthy d then d ∷ rest else rest

-- The order of `sort()`: by code units.
unfoldable pub text_leb : Text → Text → Bool
text_leb [] t = true
text_leb (c ∷ s) [] = false
text_leb (c ∷ s) (d ∷ t) = ltb c d || not (ltb d c) && text_leb s t

tag_names : List Problem → List Text
tag_names [] = []
tag_names (p ∷ ps) = or_else p.tags [] ++ tag_names ps

-- The filters that the page offers.
unfoldable pub difficulties : List Problem → List Text
unfolding difficulty_order difficulty_names unique
difficulties ps = sort_by (λ d. difficulty_order (to_lower_case d)) (unique (difficulty_names ps))

unfoldable pub all_tags : List Problem → List Text
unfolding tag_names text_leb unique
all_tags ps = sort_with text_leb (unique (tag_names ps))

-- The client's state.
pub record Filters : Type 0 where
  pub search : Text
  pub active_difficulty : Option Text
  pub active_tags : List Text

unfoldable pub toggle_tag : Text → Filters → Filters
toggle_tag t f = record f {
  active_tags =
      if has t f.active_tags
      then filter (λ x. not (text_eq t x)) f.active_tags
      else add t f.active_tags;
}

same_difficulty : Text → Option Text → Bool
same_difficulty d none = false
same_difficulty d (some e) = text_eq e d

-- A click on the button of a difficulty, and on "ALL".
unfoldable pub pick_difficulty : Text → Filters → Filters
unfolding same_difficulty
pick_difficulty d f = record f {
  active_difficulty = if same_difficulty d f.active_difficulty then none else some d;
}

unfoldable pub pick_all : Filters → Filters
pick_all f = record f { active_difficulty = none }

unfoldable pub clear_all : Filters → Filters
clear_all f = record { search = []; active_difficulty = none; active_tags = [] }

title_includes : Option Text → Text → Bool
title_includes none q = false
title_includes (some t) q = includes (to_lower_case t) q

differs : Problem → Option Text → Bool
differs p none = false
differs p (some d) =
    truthy d && not (text_eq (to_lower_case (or_else p.difficulty [])) (to_lower_case d))

has_tags : Problem → List Text → Bool
has_tags p = all (λ t. has (to_lower_case t) (map to_lower_case (or_else p.tags [])))

unfoldable pub is_kept : Filters → Problem → Bool
unfolding title_includes differs has_tags
is_kept f p =
    let q = to_lower_case (trim f.search) in
    if truthy q && not (title_includes p.title q)
    then false
    else if differs p f.active_difficulty
    then false
    else has_tags p f.active_tags

unfoldable pub filtered : Filters → List Problem → List Problem
unfolding is_kept
filtered f = filter (is_kept f)

is_chosen : Option Text → Bool
is_chosen none = false
is_chosen (some d) = truthy d

has_any : List Text → Bool
has_any [] = false
has_any (t ∷ ts) = true

unfoldable pub has_filters : Filters → Bool
unfolding is_chosen has_any
has_filters f = truthy (trim f.search) || is_chosen f.active_difficulty || has_any f.active_tags
