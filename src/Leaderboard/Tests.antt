-- ===== src/Leaderboard/Tests.antt =====
-- The leaderboard of a concrete contest.
use jjudge.Prelude.{◌≡◌, refl, true, [], ◌∷◌, some, lit, to_string, text_eq, get_elem?, length, ◌+◌}
use jjudge.Prelude.Sorting.{sort_by, sort_with}
use jjudge.Contest.{ordinal_label}
use jjudge.Leaderboard.{
  ContestProblem, Contest, ContestProblemResult, LeaderboardEntry, format_penalty, sorted_problems,
  is_icpc, lookup, problem_cell, header, entry_row,
}
use jjudge.Leaderboard.Table.{fixed_columns, ResultFor, present, cell_text, entry_row-header}

abbrev first : ContestProblem
first = record { problem_id = 31; ordinal = 0; max_points = 100 }

abbrev second : ContestProblem
second = record { problem_id = 12; ordinal = 1; max_points = 100 }

abbrev contest : Contest
contest = record {
  id = 4;
  title = lit "Spring Round";
  scoring_type = lit "icpc";
  problems = some (second ∷ first ∷ []);
}

abbrev result : ContestProblemResult
result = record {
  problem_id = 12;
  score = 100;
  accepted = true;
  attempts = 2;
  penalty_seconds = 3_700;
}

abbrev entry : LeaderboardEntry
entry = record {
  rank = 1;
  user_id = 5;
  username = lit "ada";
  total_score = 1;
  penalty_seconds = 3_700;
  problem_results = (lit "12", result) ∷ [];
}

format_penalty_test : format_penalty 3_700 ≡ lit "1h 1m"
unfolding format_penalty lit to_string
format_penalty_test = refl

problem_cell_test : problem_cell true entry second ≡ lit "+2"
unfolding problem_cell lookup lit text_eq to_string
problem_cell_test = refl

sorted_test : get_elem? (sorted_problems (some contest)) 1 ≡ some second
unfolding sorted_problems sort_by sort_with
sorted_test = refl

twelve-ResultFor : ResultFor 12 entry.problem_results (some result)
unfolding to_string lit
twelve-ResultFor = present result []

entry_row-header_example :
    (length (entry_row (some contest) entry) ≡ length (header (some contest)))
    × (get_elem? (header (some contest)) (fixed_columns (some contest) + 1)
        ≡ some (ordinal_label 1))
    × (get_elem? (entry_row (some contest) entry) (fixed_columns (some contest) + 1)
        ≡ some (cell_text (is_icpc (some contest)) (some result)))
entry_row-header_example =
    entry_row-header (some contest) entry 1 second (some result) sorted_test twelve-ResultFor
