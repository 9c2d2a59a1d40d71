-- ===== src/SubmissionLists.antt =====
-- frontend/src/app/submissions/page.tsx, frontend/src/app/problems/[id]/submissions/page.tsx and
-- frontend/src/app/contests/[id]/submissions/page.tsx: the three lists of everybody's submissions, as
-- the server renders them. Dates are left out.
pub mod Tables
mod Tests
use jjudge.Prelude.{
  ℕ, ◌++◌, List, [], ◌∷◌, map, Option, none, some, or_else, leb, Text, lit, to_string, truthy,
}
use jjudge.Prelude.Sorting.{sort_with}
use jjudge.Submissions.{Submission}
use jjudge.Submissions.Results.{shown_text}
use jjudge.Submissions.Format.{
  format_cpu_time, format_memory, format_tests, user_label, score_label, language_label,
  verdict_label,
}

-- A submission in the list of all, with the title of its problem.
pub record Listed : Type 0 where
  pub submission : Submission
  pub problem_title : Option Text

-- The cells of a row; one that a list does not have is `none`.
pub record Row : Type 0 where
  pub id : Text
  pub user : Option Text
  pub problem : Option (Text × Text)
  pub verdict : Text
  pub message : Option Text
  pub score : Text
  pub tests : Option Text
  pub time : Text
  pub memory : Text
  pub language : Text
  pub details : Text

-- What the rows have in common.
unfoldable pub row : Submission → Text → Row
row x details = record {
  id = lit "#" ++ to_string x.id;
  user = some (user_label x);
  problem = none;
  verdict = verdict_label x.verdict;
  message = shown_text x.message;
  score = score_label x.score;
  tests = some (format_tests x.tests_passed x.tests_total);
  time = format_cpu_time x.cpu_time;
  memory = format_memory x.memory;
  language = language_label x.language;
  details = details;
}

-- A row of all submissions: with a link to the problem, and without the message.
unfoldable pub listed_row : Listed → Row
unfolding row
listed_row l = record (row l.submission (lit "/submissions/" ++ to_string l.submission.id)) {
  problem = some (
    lit "/problems/" ++ to_string l.submission.problem_id,
    or_else l.problem_title (lit "Problem " ++ to_string l.submission.problem_id),
  );
  message = none;
}

unfoldable pub problem_row : Submission → Row
unfolding row
problem_row x = row x (lit "/submissions/" ++ to_string x.id)

-- A row of one's own submissions, frontend/src/app/problems/[id]/submissions/mine/page.tsx: without the user.
unfoldable pub mine_row : Submission → Row
unfolding row
mine_row x = record (row x (lit "/submissions/" ++ to_string x.id)) { user = none }

-- A row of a contest, whose id is the text in the address: with a link to the problem there, and
-- without the number of tests.
unfoldable pub contest_row : Text → Submission → Row
unfolding row
contest_row id x =
    record (row x (lit "/contests/" ++ (id ++ (lit "/submissions/" ++ to_string x.id)))) {
      problem = some (
        lit "/contests/" ++ (id ++ (lit "/problems/" ++ to_string x.problem_id)),
        lit "Problem " ++ to_string x.problem_id,
      );
      tests = none;
    }

-- What a page shows: that it could not load the list, that there is nothing, or the table.
pub data View : Type 0 where
  failed empty : View
  table : List Row → View

view_of : List Row → View
view_of [] = empty
view_of (r ∷ rs) = table (r ∷ rs)

unfoldable pub created_at : Submission → ℕ
created_at x = or_else x.created_ms 0

unfoldable pub sorted_listed : List Listed → List Listed
unfolding created_at
sorted_listed = sort_with (λ a b. leb (created_at b.submission) (created_at a.submission))

unfoldable pub sorted_submissions : List Submission → List Submission
unfolding created_at
sorted_submissions = sort_with (λ a b. leb (created_at b) (created_at a))

-- The pages, given the answer to their request, which is `none` where it fails.
unfoldable pub submissions_page : Option (List Listed) → View
unfolding listed_row view_of sorted_listed
submissions_page none = failed
submissions_page (some xs) = view_of (map listed_row (sorted_listed xs))

unfoldable pub problem_submissions_page : Option (List Submission) → View
unfolding problem_row view_of sorted_submissions
problem_submissions_page none = failed
problem_submissions_page (some xs) = view_of (map problem_row (sorted_submissions xs))

pub record Problem : Type 0 where
  pub id : ℕ
  pub title : Option Text

-- The page around the list of a problem; `none` where the problem is not found.
pub record ProblemSubmissions : Type 0 where
  pub heading : Text
  pub title : Text
  pub link : Text
  pub list : View

unfoldable pub problem_page : Option Problem → Option (List Submission) → Option ProblemSubmissions
unfolding problem_submissions_page
problem_page none submissions = none
problem_page (some p) submissions = some (record {
  heading = lit "Problem " ++ to_string p.id;
  title = or_else p.title (lit "Untitled problem") ++ lit " · Submissions";
  link = lit "/problems/" ++ to_string p.id;
  list = problem_submissions_page submissions;
})

-- The list of a contest is shown in the order of the server.
unfoldable pub contest_submissions_page : Text → Option (List Submission) → View
unfolding contest_row view_of
contest_submissions_page id none = failed
contest_submissions_page id (some xs) = view_of (map (contest_row id) xs)
