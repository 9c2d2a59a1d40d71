-- ===== src/SubmissionLists/Tests.antt =====
-- The lists of submissions at concrete ones.
use jjudge.Prelude.{◌≡◌, refl, [], ◌∷◌, map, none, some, lit, to_string, pad_start}
use jjudge.Submissions.{Submission}
use jjudge.Submissions.Format.{format_memory, hundredths, to_fixed}
use jjudge.SubmissionLists.{
  Listed, listed_row, problem_row, contest_row, created_at, submissions_page,
  problem_submissions_page, contest_submissions_page,
}
use jjudge.SubmissionLists.Tables.{ShowsSorted, rows_of, pages-ShowsSorted}

abbrev old : Submission
old = record {
  id = 8;
  problem_id = 3;
  user_id = some 5;
  username = none;
  language = some (lit "cpp");
  verdict = some (lit "ac");
  score = some 100;
  cpu_time = some 31;
  memory = some 3_670_016;
  message = none;
  tests_passed = some 10;
  tests_total = some 10;
  created_ms = some 1_000;
}

abbrev latest : Submission
latest = record old { id = 9; created_ms = some 2_000 }

abbrev listed : Listed
listed = record { submission = old; problem_title = none }

format_memory_test : format_memory (some 3_670_016) ≡ lit "3.50 MB"
unfolding format_memory hundredths to_fixed lit to_string pad_start
format_memory_test = refl

pages-ShowsSorted_example :
    ShowsSorted
      (λ l. created_at l.submission)
      listed_row
      (listed ∷ [])
      (submissions_page (some (listed ∷ [])))
    × ShowsSorted created_at problem_row
        (old ∷ latest ∷ [])
        (problem_submissions_page (some (old ∷ latest ∷ [])))
    × (rows_of (contest_submissions_page (lit "4") (some (old ∷ latest ∷ [])))
        ≡ map (contest_row (lit "4")) (old ∷ latest ∷ []))
pages-ShowsSorted_example =
    pages-ShowsSorted (listed ∷ []) (old ∷ latest ∷ []) (old ∷ latest ∷ []) (lit "4")
