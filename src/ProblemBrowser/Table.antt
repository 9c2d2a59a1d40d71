-- ===== src/ProblemBrowser/Table.antt =====
-- frontend/src/app/problems/problems-client.tsx: the bar above the list and the rows of the list.
use jjudge.Prelude.{
  ℕ, ◌+◌, ◌++◌, List, [], ◌∷◌, map_from, Option, none, some, or_else, length, ◌==◌, if◌then◌else◌,
  Text, lit, to_string, to_upper_case, pad_start,
}
use jjudge.ProblemBrowser.{Problem, Filters, filtered}

-- A row; an id that is missing is "undefined" in the address.
pub record Row : Type 0 where
  pub href : Text
  pub number : Text
  pub title : Text
  pub tags : List Text
  pub difficulty : Option Text

shown_difficulty : Option Text → Option Text
shown_difficulty none = none
shown_difficulty (some []) = none
shown_difficulty (some (c ∷ d)) = some (to_upper_case (c ∷ d))

unfoldable pub row : ℕ → Problem → Row
unfolding shown_difficulty
row i p = record {
  href = lit "/problems/" ++ or_else p.id (lit "undefined");
  number = pad_start (to_string (i + 1)) 3 b'0';
  title = or_else p.title [];
  tags = or_else p.tags [];
  difficulty = shown_difficulty p.difficulty;
}

-- The bar with the number of problems.
unfoldable pub results_bar : ℕ → ℕ → Text
results_bar kept total =
    if kept == total
    then to_string total ++ lit " PROBLEMS"
    else to_string kept ++ (lit " / " ++ (to_string total ++ lit " PROBLEMS"))

pub record Table : Type 0 where
  pub bar : Text
  pub rows : List Row

unfoldable pub table : List Problem → Filters → Table
unfolding row results_bar
table problems f = record {
  bar = results_bar (length (filtered f problems)) (length problems);
  rows = map_from row 0 (filtered f problems);
}
