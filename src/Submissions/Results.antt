-- ===== src/Submissions/Results.antt =====
-- frontend/src/components/submission-detail.tsx: the results of the single testcases, and which of
-- them are open.
pub mod Clicks
use jjudge.Prelude.{
  ℕ, ◌+◌, ◌≡◌, refl, Bool, true, false, not, ◌&&◌, ◌||◌, List, [], ◌∷◌, ◌++◌, filter, any, map_from,
  Option, none, some, or_else, length, ◌==◌, ltb, if◌then◌else◌, Text, lit, to_string,
  to_upper_case, pad_start, arith,
}
use jjudge.Submissions.{Submission, is_pending}
use jjudge.Submissions.Format.{
  format_cpu_time, format_memory, format_tests, user_label, score_label, language_label,
  verdict_label,
}

pub record TestcaseResult : Type 0 where
  pub testcase_id : ℕ
  pub verdict : Option Text
  pub cpu_time : Option ℕ
  pub memory : Option ℕ
  pub input : Option Text
  pub expected_output : Option Text
  pub actual_output : Option Text
  pub error_message : Option Text

-- `tcExpanded` and `expandedRows`; a set, as the list of its elements.
pub record Expansion : Type 0 where
  pub tc_expanded : Bool
  pub expanded_rows : List ℕ

unfoldable pub initial : Expansion
initial = record { tc_expanded = false; expanded_rows = [] }

unfoldable pub has : ℕ → List ℕ → Bool
has i rows = any (λ j. j == i) rows

unfoldable pub toggle_set : ℕ → List ℕ → List ℕ
unfolding has
toggle_set i rows = if has i rows then filter (λ j. not (j == i)) rows else rows ++ i ∷ []

unfoldable pub toggle_row : ℕ → Expansion → Expansion
unfolding toggle_set
toggle_row i s = record s { expanded_rows = toggle_set i s.expanded_rows }

unfoldable pub toggle_all : Expansion → Expansion
toggle_all s = record s { tc_expanded = not s.tc_expanded }

is_defined : Option Text → Bool
is_defined none = false
is_defined (some t) = true

unfoldable pub has_details : TestcaseResult → Bool
unfolding is_defined
has_details tc = is_defined tc.input || is_defined tc.expected_output || is_defined tc.actual_output

-- `hasDetails && toggleRow(idx)`
unfoldable pub click_row : TestcaseResult → ℕ → Expansion → Expansion
unfolding has_details toggle_row
click_row tc i s = if has_details tc then toggle_row i s else s

-- `text && ...`: a text that is shown only where it is not empty.
unfoldable pub shown_text : Option Text → Option Text
shown_text none = none
shown_text (some []) = none
shown_text (some (c ∷ t)) = some (c ∷ t)

-- A row as it is shown; `details` are the parts with their headings where it is open.
pub record Row : Type 0 where
  pub number : Text
  pub verdict : Text
  pub cpu_time : Text
  pub memory : Text
  pub error : Option Text
  pub has_details : Bool
  pub details : List (Text × Text)

-- `tc.input !== undefined && ...`
detail : Text → Option Text → List (Text × Text)
detail heading none = []
detail heading (some t) = (heading, t) ∷ []

unfoldable pub details_of : TestcaseResult → List (Text × Text)
unfolding detail
details_of tc =
    detail (lit "Input") tc.input
    ++ (detail (lit "Expected") tc.expected_output ++ detail (lit "Output") tc.actual_output)

verdict_or_dash : Option Text → Text
verdict_or_dash none = lit "—"
verdict_or_dash (some v) = to_upper_case v

unfoldable pub result_row : Expansion → ℕ → TestcaseResult → Row
unfolding verdict_or_dash has_details has details_of shown_text
result_row s i tc = record {
  number = pad_start (to_string (i + 1)) 2 b'0';
  verdict = verdict_or_dash tc.verdict;
  cpu_time = format_cpu_time tc.cpu_time;
  memory = format_memory tc.memory;
  error = shown_text tc.error_message;
  has_details = has_details tc;
  details = if has_details tc && has i s.expanded_rows then details_of tc else [];
}

-- The rows: none until the section is opened.
unfoldable pub result_rows : Expansion → Option (List TestcaseResult) → List Row
unfolding result_row
result_rows s results = if s.tc_expanded then map_from (result_row s) 0 (or_else results []) else []

-- The cells of the submission itself; the dot that pulses is there while it is pending.
pub record Summary : Type 0 where
  pub user : Text
  pub verdict : Text
  pub has_dot : Bool
  pub message : Option Text
  pub score : Text
  pub tests : Text
  pub cpu_time : Text
  pub memory : Text
  pub language : Text

unfoldable pub summary : Submission → Summary
unfolding shown_text
summary x = record {
  user = user_label x;
  verdict = verdict_label x.verdict;
  has_dot = is_pending (some (verdict_label x.verdict));
  message = shown_text x.message;
  score = score_label x.score;
  tests = format_tests x.tests_passed x.tests_total;
  cpu_time = format_cpu_time x.cpu_time;
  memory = format_memory x.memory;
  language = language_label x.language;
}

has-append : (i j : ℕ) (rows : List ℕ) → has j (rows ++ i ∷ []) ≡ (has j rows || i == j)
unfolding has
has-append i j [] = ground arith
has-append i j (x ∷ rows) = ground (arith, has-append i j rows)

has-filter :
    (i j : ℕ) (rows : List ℕ)
    → has j (filter (λ x. not (x == i)) rows) ≡ (has j rows && not (i == j))
unfolding has
has-filter i j [] = refl
has-filter i j (x ∷ rows) = ground (arith, has-filter i j rows)

-- A toggle of a row opens it or closes it, and leaves every other row as it is.
pub has-toggle_row :
    (i j : ℕ) (s : Expansion)
    → has j (toggle_row i s).expanded_rows
      ≡ (if i == j then not (has j s.expanded_rows) else has j s.expanded_rows)
unfolding toggle_row toggle_set
has-toggle_row i j s =
    let rows = s.expanded_rows in ground (arith, has-append i j rows, has-filter i j rows)
