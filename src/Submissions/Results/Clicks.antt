-- ===== src/Submissions/Results/Clicks.antt =====
-- Which of the results are open after some clicks.
use jjudge.Prelude.{ℕ, ◌≡◌, Bool, false, not, ◌&&◌, List, [], ◌∷◌, ◌==◌, if◌then◌else◌, arith}
use jjudge.Submissions.Results.{
  TestcaseResult, Expansion, initial, has, has-toggle_row, has_details, details_of, click_row,
  result_row,
}

-- Clicks on rows, of which the i-th shows `results i`, the first click first.
unfoldable pub clicks : (ℕ → TestcaseResult) → List ℕ → Expansion → Expansion
clicks results [] s = s
clicks results (i ∷ is) s = clicks results is (click_row (results i) i s)

-- Whether `j` is among the clicks an odd number of times.
unfoldable pub is_odd : ℕ → List ℕ → Bool
is_odd j [] = false
is_odd j (i ∷ is) = let rest = is_odd j is in if i == j then not rest else rest

has-click_row :
    (results : ℕ → TestcaseResult) (i j : ℕ) (s : Expansion)
    → has j (click_row (results i) i s).expanded_rows ≡ (
        if i == j && has_details (results i)
        then not (has j s.expanded_rows)
        else has j s.expanded_rows)
unfolding click_row
has-click_row results i j s = ground (arith, has-toggle_row i j s)

has-clicks :
    (results : ℕ → TestcaseResult) (j : ℕ) (is : List ℕ) (s : Expansion)
    → has j (clicks results is s).expanded_rows ≡ (
        if has_details (results j) && is_odd j is
        then not (has j s.expanded_rows)
        else has j s.expanded_rows)
unfolding clicks is_odd
has-clicks results j [] s = ground arith
has-clicks results j (i ∷ is) s =
    let t = click_row (results i) i s in
    ground (arith, has-clicks results j is t, has-click_row results i j s)

-- After any clicks on the rows, a row shows its details where it has any and it was clicked an odd number of
-- times; a row without details never opens, and no row depends on the clicks on others.
pub details-clicks :
    (results : ℕ → TestcaseResult) (j : ℕ) (is : List ℕ)
    → (result_row (clicks results is initial) j (results j)).details
      ≡ (if has_details (results j) && is_odd j is then details_of (results j) else [])
unfolding result_row initial has
details-clicks results j is = ground (arith, has-clicks results j is initial)
