-- ===== src/SubmissionLists/Tables.antt =====
-- Which rows the three lists show, and in which order.
use mathlib.Core.List.{Perm}
use jjudge.Prelude.{ℕ, ◌≤◌, ◌≡◌, refl, List, [], ◌∷◌, map, some, Text, leb, arith}
use jjudge.Prelude.Sorting.{IsSorted, sort_with-perm, sort_with-IsSorted}
use jjudge.Submissions.{Submission}
use jjudge.SubmissionLists.{
  Listed, Row, listed_row, problem_row, contest_row, View, failed, empty, table, view_of,
  created_at, sorted_listed, sorted_submissions, submissions_page, problem_submissions_page,
  contest_submissions_page,
}

-- The rows of a view.
abbrev pub rows_of : View → List Row
rows_of failed = []
rows_of empty = []
rows_of (table rs) = rs

-- A page that shows exactly the elements of `xs`, of which none stands before one with a larger key.
pub record ShowsSorted {A : Type 0} (key : A → ℕ) (cells : A → Row) (xs : List A) (v : View)
    : Type 0 where
  pub shown : List A
  pub is_complete : Perm shown xs
  pub is_sorted : IsSorted (λ a b. key b ≤ key a) shown
  pub has_rows : rows_of v ≡ map cells shown

rows_of-view_of : (rs : List Row) → rows_of (view_of rs) ≡ rs
unfolding view_of
rows_of-view_of [] = refl
rows_of-view_of (r ∷ rs) = refl

-- The list of all submissions and that of a problem show every submission of the answer once, the
-- latest first, one without a time last; that of a contest shows them in the order of the answer.
pub pages-ShowsSorted :
    (xs : List Listed) (ys zs : List Submission) (id : Text)
    → ShowsSorted (λ l. created_at l.submission) listed_row xs (submissions_page (some xs))
      × ShowsSorted created_at problem_row ys (problem_submissions_page (some ys))
      × (rows_of (contest_submissions_page id (some zs)) ≡ map (contest_row id) zs)
unfolding submissions_page problem_submissions_page contest_submissions_page sorted_listed
    sorted_submissions
pages-ShowsSorted xs ys zs id = (
  record {
    shown = sorted_listed xs;
    is_complete =
        sort_with-perm (λ a b. leb (created_at b.submission) (created_at a.submission)) xs;
    is_sorted =
        sort_with-IsSorted (λ a b. leb (created_at b.submission) (created_at a.submission))
          (λ a b. created_at b.submission ≤ created_at a.submission) (λ a b e. ground arith)
          (λ a b e. ground arith) (λ a b c h k. omega arith) xs;
    has_rows = rows_of-view_of (map listed_row (sorted_listed xs));
  },
  record {
    shown = sorted_submissions ys;
    is_complete = sort_with-perm (λ a b. leb (created_at b) (created_at a)) ys;
    is_sorted =
        sort_with-IsSorted (λ a b. leb (created_at b) (created_at a))
          (λ a b. created_at b ≤ created_at a) (λ a b e. ground arith) (λ a b e. ground arith)
          (λ a b c h k. omega arith) ys;
    has_rows = rows_of-view_of (map problem_row (sorted_submissions ys));
  },
  rows_of-view_of (map (contest_row id) zs),
)
