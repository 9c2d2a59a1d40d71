-- ===== src/ProblemContent/InContest.antt =====
-- frontend/src/app/contests/[id]/problems/[problemId]/page.tsx: the page of a problem in a contest.
use jjudge.Prelude.{ℕ, ◌++◌, List, [], ◌∷◌, Option, none, some, or_else, Text, lit, to_string}
use jjudge.ProblemContent.{memory_mb, shown_description}
use jjudge.SubmissionForm.{Target, contest}

pub record Problem : Type 0 where
  pub id : ℕ
  pub title : Option Text
  pub description : Option Text
  pub difficulty : Option ℕ
  pub time_limit : Option ℕ
  pub memory_limit : Option ℕ
  pub tags : Option (List Text)

-- `problem.difficulty && ...` of a number: a 0 is shown as it is.
shown_number : Option ℕ → Option Text
shown_number none = none
shown_number (some n) = some (to_string n)

pub record Page : Type 0 where
  pub title : Text
  pub time_limit : Option ℕ
  pub memory_mb : ℕ
  pub difficulty : Option Text
  pub tags : List Text
  pub description : Option Text
  pub form : Target

-- `none` is the page "not found"; `contest_id` is the number in the address.
unfoldable pub problem_page : ℕ → Option Problem → Option Page
unfolding shown_number
problem_page contest_id none = none
problem_page contest_id (some p) = some (record {
  title = or_else p.title (lit "Untitled problem");
  time_limit = p.time_limit;
  memory_mb = memory_mb p.memory_limit;
  difficulty = shown_number p.difficulty;
  tags = or_else p.tags [];
  description = shown_description p.description;
  form = contest contest_id p.id;
})

-- `title ? ... : ...`
titled : Option Text → ℕ → Text
titled none i = lit "Problem " ++ to_string i
titled (some []) i = lit "Problem " ++ to_string i
titled (some (c ∷ t)) i = (c ∷ t) ++ (lit " · Problem " ++ to_string i)

unfoldable pub metadata_title : Option Problem → Text
unfolding titled
metadata_title none = lit "Problem not found"
metadata_title (some p) = titled p.title p.id
