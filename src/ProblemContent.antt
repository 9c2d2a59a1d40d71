-- ===== src/ProblemContent.antt =====
-- frontend/src/app/problems/[id]/problem-content.tsx: the page of a problem.
pub mod Views
pub mod InContest
mod Tests
use jjudge.Prelude.{
  ℕ, ◌+◌, ◌/◌, ◌++◌, Bool, true, false, not, List, [], ◌∷◌, Option, none, some, or_else, ◌==◌,
  if◌then◌else◌, Text, lit, to_string, text_eq, trim, truthy,
}
use jjudge.Submissions.Results.{shown_text}
use jjudge.Async.{Task, set, call, done, ◌>>=◌, ◌>>◌}

pub record Problem : Type 0 where
  pub id : ℕ
  pub title : Option Text
  pub difficulty : Option Text
  pub tags : Option (List Text)
  pub description : Option Text
  pub time_limit : Option ℕ
  pub memory_limit : Option ℕ
  pub approval_status : Option Text

pub record Page : Type 0 where
  pub problem : Option Problem
  pub not_found_error : Bool

pub data Request : Type 0 where
  get_problem : Option Text → Text → Request

-- A promise that is rejected with the status of an `ApiError`, or with another error; or the body, which
-- may be null.
pub data Result : Type 0 where
  failed : Option ℕ → Result
  found : Option Problem → Result

abbrev pub Answer : Request → Type 0
Answer (get_problem header id) = Result

abbrev pub Handler : Type 0
Handler = Task Request Answer Page (Unit {0})

unfoldable pub initial : Page
initial = record { problem = none; not_found_error = false }

-- The header of a token that is not empty.
pub header_of : Option Text → Option Text
header_of none = none
header_of (some []) = none
header_of (some (c ∷ t)) = some (lit "Bearer " ++ (c ∷ t))

set_not_found : Bool → Handler
set_not_found true = set (λ s. record s { not_found_error = true })
set_not_found false = done

unfoldable pub loaded : Result → Handler
unfolding set_not_found
loaded (found p) = set (λ s. record s { problem = p })
loaded (failed none) = done
loaded (failed (some status)) = set_not_found (status == 404)

-- The effect.
unfoldable pub load : Option Text → Text → Handler
unfolding header_of loaded
load token id = call (get_problem (header_of token) id) >>= loaded

-- What depends on the problem in the page that shows it.
pub record Shown : Type 0 where
  pub title : Text
  pub is_pending : Bool
  pub time_limit : Option ℕ
  pub memory_mb : ℕ
  pub difficulty : Option Text
  pub tags : List Text
  pub description : Option Text
  pub links : List Text
  pub offers_form : Bool

is_approved : Option Text → Bool
is_approved none = false
is_approved (some status) = text_eq status (lit "approved")

-- `memory_limit ? Math.round(memory_limit / 1048576) : 0`
unfoldable pub memory_mb : Option ℕ → ℕ
memory_mb none = 0
memory_mb (some bytes) = (bytes + 524_288) / 1_048_576

-- `description?.trim()`, where it is not empty.
unfoldable pub shown_description : Option Text → Option Text
shown_description none = none
shown_description (some d) = if truthy (trim d) then some (trim d) else none

unfoldable pub shown : Problem → Shown
unfolding is_approved shown_description
shown p = record {
  title = or_else p.title (lit "Untitled problem");
  is_pending = not (is_approved p.approval_status);
  time_limit = p.time_limit;
  memory_mb = memory_mb p.memory_limit;
  difficulty = shown_text p.difficulty;
  tags = or_else p.tags [];
  description = shown_description p.description;
  links =
      (lit "/problems/" ++ (to_string p.id ++ lit "/submissions"))
      ∷ (lit "/problems/" ++ (to_string p.id ++ lit "/submissions/mine"))
      ∷ [];
  offers_form = is_approved p.approval_status;
}

pub data View : Type 0 where
  not_found loading : View
  problem_page : Shown → View

view_of : Bool → Option Problem → View
view_of true p = not_found
view_of false none = loading
view_of false (some p) = problem_page (shown p)

unfoldable pub view : Page → View
unfolding view_of
view s = view_of s.not_found_error s.problem
