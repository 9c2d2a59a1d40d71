-- ===== src/Leaderboard.antt =====
-- frontend/src/app/contests/[id]/leaderboard/page.tsx: the table of a contest's results.
pub mod Table
mod Tests
use jjudge.Prelude.{
  ℕ, ◌++◌, ◌/◌, ◌%◌, Bool, true, false, List, [], ◌∷◌, map, Option, none, some, or_else, ltb,
  if◌then◌else◌, Text, lit, text_eq, to_string,
}
use jjudge.Prelude.Sorting.{sort_by}
use jjudge.Contest.{ordinal_label}

pub record ContestProblem : Type 0 where
  pub problem_id : ℕ
  pub ordinal : ℕ
  pub max_points : ℕ

pub record Contest : Type 0 where
  pub id : ℕ
  pub title : Text
  pub scoring_type : Text
  pub problems : Option (List ContestProblem)

pub record ContestProblemResult : Type 0 where
  pub problem_id : ℕ
  pub score : ℕ
  pub accepted : Bool
  pub attempts : ℕ
  pub penalty_seconds : ℕ

-- `problem_results` is an object, whose keys are the texts of the ids.
pub record LeaderboardEntry : Type 0 where
  pub rank : ℕ
  pub user_id : ℕ
  pub username : Text
  pub total_score : ℕ
  pub penalty_seconds : ℕ
  pub problem_results : List (Text × ContestProblemResult)

unfoldable pub format_penalty : ℕ → Text
format_penalty seconds =
    let h = seconds / 3600 in
    let m = seconds % 3600 / 60 in
    let s = seconds % 60 in
    if ltb 0 h
    then to_string h ++ (lit "h " ++ (to_string m ++ lit "m"))
    else if ltb 0 m
    then to_string m ++ (lit "m " ++ (to_string s ++ lit "s"))
    else to_string s ++ lit "s"

unfoldable pub sorted_problems : Option Contest → List ContestProblem
sorted_problems none = []
sorted_problems (some c) = sort_by (λ cp. cp.ordinal) (or_else c.problems [])

unfoldable pub is_icpc : Option Contest → Bool
is_icpc none = false
is_icpc (some c) = text_eq c.scoring_type (lit "icpc")

-- `results[key]`
unfoldable pub lookup : {A : Type 0} → Text → List (Text × A) → Option A
lookup key [] = none
lookup key ((k, v) ∷ kvs) = let rest = lookup key kvs in if text_eq k key then some v else rest

result_cell : Bool → Option ContestProblemResult → Text
result_cell icpc none = lit "—"
result_cell true (some pr) =
    if pr.accepted then lit "+" ++ to_string pr.attempts else lit "-" ++ to_string pr.attempts
result_cell false (some pr) = to_string pr.score

unfoldable pub problem_cell : Bool → LeaderboardEntry → ContestProblem → Text
unfolding lookup result_cell
problem_cell icpc entry cp =
    result_cell icpc (lookup (to_string cp.problem_id) entry.problem_results)

penalty_cell : ℕ → Text
unfolding format_penalty
penalty_cell seconds = if ltb 0 seconds then format_penalty seconds else lit "—"

-- A cell that only the table of an ICPC contest has.
icpc_cell : Bool → Text → List Text
icpc_cell true t = t ∷ []
icpc_cell false t = []

unfoldable pub header : Option Contest → List Text
unfolding icpc_cell is_icpc sorted_problems
header contest =
    lit "Rank"
    ∷ lit "User"
    ∷ (if is_icpc contest then lit "Solved" else lit "Score")
    ∷ (icpc_cell (is_icpc contest) (lit "Penalty")
        ++ map (λ cp. ordinal_label cp.ordinal) (sorted_problems contest))

unfoldable pub entry_row : Option Contest → LeaderboardEntry → List Text
unfolding icpc_cell penalty_cell problem_cell is_icpc sorted_problems
entry_row contest entry =
    (lit "#" ++ to_string entry.rank)
    ∷ entry.username
    ∷ to_string entry.total_score
    ∷ (icpc_cell (is_icpc contest) (penalty_cell entry.penalty_seconds)
        ++ map (problem_cell (is_icpc contest) entry) (sorted_problems contest))

pub data View : Type 0 where
  failed empty : View
  table : List Text → List (List Text) → View

view_of : Option Contest → List LeaderboardEntry → View
unfolding header entry_row
view_of contest [] = empty
view_of contest (e ∷ es) = table (header contest) (map (entry_row contest) (e ∷ es))

-- The page, given what the two requests found; each is `none` where it fails.
unfoldable pub leaderboard_page : Option Contest → Option (List LeaderboardEntry) → View
unfolding view_of
leaderboard_page contest none = failed
leaderboard_page contest (some entries) = view_of contest entries
