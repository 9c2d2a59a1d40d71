-- ===== src/Routes/Links.antt =====
-- The links of the pages lead to pages.
use jjudge.Prelude.{
  ℕ, zero, suc, List, [], ◌∷◌, ◌++◌, map, All, Option, none, some, Text, lit, to_string, IsSegment,
  to_string-IsSegment,
}
use jjudge.Routes.Plain.{Serves}
use jjudge.Routes.Addresses.{
  login-Serves, problem-Serves, submission-Serves, contest-Serves, problem_submissions-Serves,
  problem_mine-Serves, contest_leaderboard-Serves, contest_submissions-Serves,
  contest_problem-Serves, contest_submission-Serves,
}
use jjudge.Submissions.{Submission}
use jjudge.Submissions.Results.{TestcaseResult}
use jjudge.SubmissionLists.{Row, Listed, row, listed_row, problem_row, mine_row, contest_row}
use jjudge.SubmissionPage
use jjudge.SubmissionPage.InContest.{contest_submission_page}
use jjudge.SubmissionForm.{Target, practice, contest as for_contest, destination}
use jjudge.Contest.{Contest, ContestProblem, nav_links, row as contest_problem_row}
use jjudge.ContestList
use jjudge.ProblemContent
use jjudge.RegisterButton
use jjudge.SubmissionForm

-- The links of a row.
unfoldable pub row_links : Option (Text × Text) → Text → List Text
row_links none details = details ∷ []
row_links (some p) details = p.0 ∷ details ∷ []

abbrev pub links_of : Row → List Text
links_of r = row_links r.problem r.details

module _ (x : Submission) where
  problem_id-Serves : Serves (lit "/problems/" ++ to_string x.problem_id)
  problem_id-Serves = problem-Serves _ (to_string-IsSegment x.problem_id)

  submission_id-Serves : Serves (lit "/submissions/" ++ to_string x.id)
  submission_id-Serves = submission-Serves _ (to_string-IsSegment x.id)

-- The rows of the lists of submissions; `id` is the contest's id in the address.
pub rows-Serves :
    (id : Text)
    → IsSegment id
    → (l : Listed) (x : Submission)
    → All Serves (links_of (listed_row l))
      × All Serves (links_of (problem_row x))
      × All Serves (links_of (mine_row x))
      × All Serves (links_of (contest_row id x))
unfolding listed_row problem_row mine_row contest_row row row_links
rows-Serves id h l x = (
  (problem_id-Serves l.submission, (submission_id-Serves l.submission, tt)),
  (submission_id-Serves x, tt),
  (submission_id-Serves x, tt),
  (
    contest_problem-Serves _ _ h (to_string-IsSegment x.problem_id),
    (contest_submission-Serves _ _ h (to_string-IsSegment x.id), tt),
  ),
)

-- The links of the pages around one submission, and those of a contest and of a problem.
pub pages-Serves :
    (id : Text)
    → IsSegment id
    → (x : Submission) (code : Option Text) (results : Option (List TestcaseResult))
      (q : SubmissionPage.Problem) (now : ℕ) (c : Contest) (cp : ContestProblem)
      (p : ProblemContent.Problem)
    → All Serves (SubmissionPage.submission_page (some q) x).links
      × All Serves (map (λ l. l.0) (contest_submission_page id x code results).links)
      × Serves (ContestList.contest_row now c).href
      × Serves (contest_problem_row c cp).href
      × All Serves (nav_links c)
      × All Serves (ProblemContent.shown p).links
unfolding SubmissionPage.submission_page SubmissionPage.links_of contest_submission_page
    ContestList.contest_row contest_problem_row nav_links ProblemContent.shown
pages-Serves id h x code results q now c cp p =
    let s : (n : ℕ) → IsSegment (to_string n) = to_string-IsSegment in
    (
      (problem-Serves _ (s q.id), (problem_submissions-Serves _ (s q.id), tt)),
      (contest_submissions-Serves _ h, (contest_problem-Serves _ _ h (s x.problem_id), tt)),
      contest-Serves _ (s c.id),
      contest_problem-Serves _ _ (s c.id) (s cp.problem_id),
      (contest_leaderboard-Serves _ (s c.id), (contest_submissions-Serves _ (s c.id), tt)),
      (problem_submissions-Serves _ (s p.id), (problem_mine-Serves _ (s p.id), tt)),
    )

-- Where the forms send the browser after a submission.
pub destination-Serves : (x : Target) (id : Option ℕ) → Serves (destination x id)
unfolding destination
destination-Serves (practice i) none = problem_mine-Serves _ (to_string-IsSegment i)
destination-Serves (practice i) (some zero) = problem_mine-Serves _ (to_string-IsSegment i)
destination-Serves (practice i) (some (suc n)) = submission-Serves _ (to_string-IsSegment (suc n))
destination-Serves (for_contest c i) none = contest_submissions-Serves _ (to_string-IsSegment c)
destination-Serves (for_contest c i) (some zero) =
    contest_submissions-Serves _ (to_string-IsSegment c)
destination-Serves (for_contest c i) (some (suc n)) =
    contest_submission-Serves _ _ (to_string-IsSegment c) (to_string-IsSegment (suc n))

-- What the server answers to the pages.
pub record Found : Type 0 where
  pub listed : Listed
  pub submission : Submission
  pub code : Option Text
  pub results : Option (List TestcaseResult)
  pub problem_ref : SubmissionPage.Problem
  pub contest : Contest
  pub contest_problem : ContestProblem
  pub problem : ProblemContent.Problem

-- A page answers to each link: in the rows of the lists of submissions, around a submission, in the list of
-- contests, on the page of a contest with its registration, and on that of a problem with its form.
pub record LinksServe (id : Text) (now : ℕ) (f : Found) : Type 0 where
  pub all_rows : All Serves (links_of (listed_row f.listed))
  pub problem_rows : All Serves (links_of (problem_row f.submission))
  pub mine_rows : All Serves (links_of (mine_row f.submission))
  pub contest_rows : All Serves (links_of (contest_row id f.submission))
  pub around : All Serves (SubmissionPage.submission_page (some f.problem_ref) f.submission).links
  pub around_contest :
      All Serves (map (λ l. l.0) (contest_submission_page id f.submission f.code f.results).links)
  pub contests : Serves (ContestList.contest_row now f.contest).href
  pub contest_problems : Serves (contest_problem_row f.contest f.contest_problem).href
  pub contest_links : All Serves (nav_links f.contest)
  pub registration : Serves RegisterButton.log_in_link
  pub problem_links : All Serves (ProblemContent.shown f.problem).links
  pub form : Serves SubmissionForm.log_in_link

-- Where the id in the address of a contest is a text of letters, digits, dashes and underscores that is not
-- empty, a page answers to every link in the rows of the four lists of submissions, to those around a
-- submission, in the list of contests, on the page of a contest with its registration, and on that of
-- a problem with its form, those that the statement of the problem has in its text apart, and to the
-- address that the forms lead to after a submission, whatever the answers of the server are.
pub links-LinksServe :
    (id : Text)
    → IsSegment id
    → (now : ℕ) (f : Found) (target : Target) (sent : Option ℕ)
    → LinksServe id now f × Serves (destination target sent)
links-LinksServe id h now f target sent =
    let (a₁, a₂, a₃, a₄) = rows-Serves id h f.listed f.submission in
    let (b₁, b₂, b₃, b₄, b₅, b₆) =
      pages-Serves id h f.submission f.code f.results f.problem_ref now f.contest f.contest_problem
        f.problem in
    (
      record {
        all_rows = a₁;
        problem_rows = a₂;
        mine_rows = a₃;
        contest_rows = a₄;
        around = b₁;
        around_contest = b₂;
        contests = b₃;
        contest_problems = b₄;
        contest_links = b₅;
        registration = login-Serves;
        problem_links = b₆;
        form = login-Serves;
      },
      destination-Serves target sent,
    )
