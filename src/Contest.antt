-- ===== src/Contest.antt =====
-- frontend/src/app/contests/[id]/contest-body.tsx: the page of a contest, before, during and after
-- it. Times are milliseconds; a difference that JavaScript makes negative is 0 here, which is what
-- `toParts` makes of it.
pub mod Labels
pub mod Phases
mod Tests
use jjudge.Prelude.{
  ℕ, ◌+◌, ◌-◌, ◌*◌, ◌/◌, ◌%◌, Bool, true, false, List, [], ◌∷◌, ◌++◌, map, Option, none, some,
  or_else, ltb, leb, ◌==◌, if◌then◌else◌, length, Text, lit, to_string, pad_start, truthy,
}
use jjudge.Prelude.Sorting.{sort_by}

pub record ProblemRef : Type 0 where
  pub id : ℕ
  pub title : Option Text

pub record ContestProblem : Type 0 where
  pub contest_id : ℕ
  pub problem_id : ℕ
  pub ordinal : ℕ
  pub max_points : ℕ
  pub problem : Option ProblemRef

-- `start_ms` and `end_ms` are the times that `new Date(...).getTime()` reads.
pub record Contest : Type 0 where
  pub id : ℕ
  pub title : Text
  pub description : Option Text
  pub start_ms : ℕ
  pub end_ms : ℕ
  pub scoring_type : Text
  pub visibility : Text
  pub problems : Option (List ContestProblem)

pub data ContestState : Type 0 where
  upcoming active ended : ContestState

unfoldable pub get_state : ℕ → ℕ → ℕ → ContestState
get_state start_ms end_ms now =
    if ltb now start_ms then upcoming else if leb now end_ms then active else ended

unfoldable pub pad : ℕ → Text
pad n = pad_start (to_string n) 2 b'0'

pub record Parts : Type 0 where
  pub h : Text
  pub m : Text
  pub s : Text

unfoldable pub to_parts : ℕ → Parts
unfolding pad
to_parts ms =
    let total = ms / 1000 in
    record { h = pad (total / 3600); m = pad (total % 3600 / 60); s = pad (total % 60) }

-- `String.fromCharCode(n)` keeps 16 bits.
abbrev pub from_char_code : ℕ → Text
from_char_code n = (n % 65536) ∷ []

unfoldable pub ordinal_label : ℕ → Text
ordinal_label n =
    if ltb n 26
    then from_char_code (65 + n)
    else from_char_code (65 + n / 26 - 1) ++ from_char_code (65 + n % 26)

-- `Math.round` on a time that is not negative.
round_minutes : ℕ → ℕ
round_minutes ms = (ms + 30000) / 60000

label_of : ℕ → ℕ → Text
label_of h m =
    if h == 0
    then to_string m ++ lit "m"
    else if m == 0
    then to_string h ++ lit "h"
    else to_string h ++ (lit "h " ++ (to_string m ++ lit "m"))

unfoldable pub duration_label : ℕ → ℕ → Text
unfolding round_minutes label_of
duration_label start_ms end_ms =
    let total_minutes = round_minutes (end_ms - start_ms) in
    label_of (total_minutes / 60) (total_minutes % 60)

-- A row of `ProblemsTable`.
pub record Row : Type 0 where
  pub label : Text
  pub href : Text
  pub title : Text
  pub points : ℕ

title_of : ContestProblem → Option ProblemRef → Text
title_of cp none = lit "Problem " ++ to_string cp.problem_id
title_of cp (some p) = or_else p.title (lit "Problem " ++ to_string cp.problem_id)

unfoldable pub row : Contest → ContestProblem → Row
unfolding title_of
row c cp = record {
  label = ordinal_label cp.ordinal;
  href = lit "/contests/" ++ (to_string c.id ++ (lit "/problems/" ++ to_string cp.problem_id));
  title = title_of cp cp.problem;
  points = cp.max_points;
}

-- `NavLinks`
unfoldable pub nav_links : Contest → List Text
nav_links c =
    (lit "/contests/" ++ (to_string c.id ++ lit "/leaderboard"))
    ∷ (lit "/contests/" ++ (to_string c.id ++ lit "/submissions"))
    ∷ []

locked_message : ℕ → Text
locked_message n =
    if ltb 0 n
    then to_string n
      ++ (lit " problem"
          ++ ((if n == 1 then [] else lit "s") ++ lit " — revealed when the contest begins."))
    else lit "Problems will be revealed when the contest begins."

-- What the three layouts show that depends on the state: the countdown, the registration button,
-- the links, the rows of the problem table, and the note in its place.
pub record Layout : Type 0 where
  pub badge : Text
  pub countdown : Option Parts
  pub register_button : Bool
  pub links : List Text
  pub duration : Option Text
  pub rows : List Row
  pub locked : Option Text

unfoldable pub upcoming_layout : Contest → List ContestProblem → ℕ → Layout
unfolding to_parts duration_label locked_message
upcoming_layout c sorted now = record {
  badge = lit "Upcoming";
  countdown = some (to_parts (c.start_ms - now));
  register_button = true;
  links = [];
  duration = some (duration_label c.start_ms c.end_ms);
  rows = [];
  locked = some (locked_message (length sorted));
}

unfoldable pub active_layout : Contest → List ContestProblem → ℕ → Layout
unfolding to_parts nav_links row
active_layout c sorted now = record {
  badge = lit "Active";
  countdown = some (to_parts (c.end_ms - now));
  register_button = true;
  links = nav_links c;
  duration = none;
  rows = map (row c) sorted;
  locked = none;
}

unfoldable pub ended_layout : Contest → List ContestProblem → Layout
unfolding nav_links row
ended_layout c sorted = record {
  badge = lit "Ended";
  countdown = none;
  register_button = false;
  links = nav_links c;
  duration = none;
  rows = map (row c) sorted;
  locked = none;
}

unfoldable pub layout_for : ContestState → Contest → List ContestProblem → ℕ → Layout
unfolding upcoming_layout active_layout ended_layout
layout_for upcoming c sorted now = upcoming_layout c sorted now
layout_for active c sorted now = active_layout c sorted now
layout_for ended c sorted now = ended_layout c sorted

unfoldable pub sorted_problems : Contest → List ContestProblem
sorted_problems c = sort_by (λ cp. cp.ordinal) (or_else c.problems [])

unfoldable pub contest_body : Contest → ℕ → Layout
unfolding layout_for sorted_problems
contest_body c now = layout_for (get_state c.start_ms c.end_ms now) c (sorted_problems c) now
