-- ===== src/ProblemBrowser/Tests.antt =====
-- The theorems on the problem browser at concrete inputs.
use jjudge.Prelude.{
  ◌≡◌, refl, ◌↔◌, true, List, [], ◌∷◌, none, some, any, Text, lit, text_eq, trim, to_lower_case,
  includes,
}
use jjudge.Prelude.Sorting.{sort_by, sort_with}
use jjudge.ProblemBrowser.{
  Problem, has, Filters, difficulties, all_tags, toggle_tag, pick_difficulty, clear_all, is_kept,
  filtered, unique,
}
use jjudge.ProblemBrowser.Filtering.{Matches, is_kept_iff}
use jjudge.ProblemBrowser.Pills.{offered-is_kept}

abbrev problem : Text → Text → List Text → Problem
problem title difficulty tags = record {
  id = none;
  title = some title;
  slug = none;
  difficulty = some difficulty;
  tags = some tags;
}

abbrev catalogue : List Problem
catalogue =
    problem (lit "Two Sum") (lit "Easy") (lit "arrays" ∷ [])
    ∷ problem (lit "Max Flow") (lit "hard") (lit "graphs" ∷ lit "flow" ∷ [])
    ∷ []

abbrev filters : Filters
filters = record {
  search = lit "  FLOW ";
  active_difficulty = none;
  active_tags = lit "Graphs" ∷ [];
}

filtered_test :
    filtered filters catalogue
    ≡ problem (lit "Max Flow") (lit "hard") (lit "graphs" ∷ lit "flow" ∷ []) ∷ []
unfolding filtered is_kept lit text_eq trim to_lower_case includes
filtered_test = refl

difficulties_test : difficulties catalogue ≡ lit "Easy" ∷ lit "hard" ∷ []
unfolding difficulties lit text_eq to_lower_case unique sort_by sort_with
difficulties_test = refl

is_kept_iff_example :
    (is_kept filters (problem (lit "Two Sum") (lit "Easy") []) ≡ true)
    ↔ Matches filters (problem (lit "Two Sum") (lit "Easy") [])
is_kept_iff_example = is_kept_iff filters (problem (lit "Two Sum") (lit "Easy") [])

offered-is_kept_example :
    (has (lit "hard") (difficulties catalogue) ≡ true
      → any (is_kept (pick_difficulty (lit "hard") (clear_all filters))) catalogue ≡ true)
    × (has (lit "hard") (all_tags catalogue) ≡ true
        → any (is_kept (toggle_tag (lit "hard") (clear_all filters))) catalogue ≡ true)
offered-is_kept_example = offered-is_kept (lit "hard") filters catalogue
