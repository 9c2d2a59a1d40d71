-- ===== src/SubmissionPage/InContest.antt =====
-- frontend/src/app/contests/[id]/submissions/[submissionId]/page.tsx: the page of a submission to a contest.
use jjudge.Prelude.{
  ℕ, suc, ◌+◌, ◌++◌, List, [], ◌∷◌, map_from, Option, some, or_else, Text, lit, to_string,
}
use jjudge.Submissions.{Submission}
use jjudge.Submissions.Format.{
  format_cpu_time, format_memory, format_tests, score_label, language_label, verdict_label,
}
use jjudge.Submissions.Results.{TestcaseResult, shown_text}

-- `user_id ? `#...` : "—"`: the id 0 counts as missing.
short_number : Option ℕ → Text
short_number (some (suc i)) = lit "#" ++ to_string (suc i)
short_number _ = lit "—"

pub record Summary : Type 0 where
  pub verdict : Text
  pub score : Text
  pub cpu_time : Text
  pub memory : Text
  pub language : Text
  pub tests : Text
  pub user : Text

unfoldable pub summary : Submission → Summary
unfolding short_number
summary x = record {
  verdict = verdict_label x.verdict;
  score = score_label x.score;
  cpu_time = format_cpu_time x.cpu_time;
  memory = format_memory x.memory;
  language = language_label x.language;
  tests = format_tests x.tests_passed x.tests_total;
  user = or_else x.username (short_number x.user_id);
}

pub record Row : Type 0 where
  pub number : Text
  pub verdict : Text
  pub cpu_time : Text
  pub memory : Text

unfoldable pub result_row : ℕ → TestcaseResult → Row
result_row i tr = record {
  number = to_string (i + 1);
  verdict = verdict_label tr.verdict;
  cpu_time = format_cpu_time tr.cpu_time;
  memory = format_memory tr.memory;
}

-- The page; `id` is the contest's id in the address, and `code` and `rows` are empty where the section is
-- not there.
pub record Page : Type 0 where
  pub label : Text
  pub heading : Text
  pub links : List (Text × Text)
  pub cells : Summary
  pub message : Option Text
  pub code : Option Text
  pub rows : List Row

unfoldable pub contest_submission_page :
    Text → Submission → Option Text → Option (List TestcaseResult) → Page
unfolding summary result_row
contest_submission_page id x code results = record {
  label = lit "Contest " ++ (id ++ lit " · Submission");
  heading = lit "Submission #" ++ to_string x.id;
  links =
      (lit "/contests/" ++ (id ++ lit "/submissions"), lit "← All submissions")
      ∷ (
        lit "/contests/" ++ (id ++ (lit "/problems/" ++ to_string x.problem_id)),
        lit "Problem " ++ to_string x.problem_id,
      )
      ∷ [];
  cells = summary x;
  message = shown_text x.message;
  code = shown_text code;
  rows = map_from result_row 0 (or_else results []);
}
