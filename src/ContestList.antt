-- ===== src/ContestList.antt =====
-- frontend/src/app/contests/page.tsx: the list of contests.
pub mod States
mod Tests
use jjudge.Prelude.{
  ℕ, ◌++◌, List, [], ◌∷◌, map, Option, none, some, or_else, ltb, leb, if◌then◌else◌, length, Text,
  lit, to_string, to_upper_case,
}
use jjudge.Contest.{Contest}

-- The label that `getStatus` gives at the time `now`.
unfoldable pub get_status : ℕ → ℕ → ℕ → Text
get_status start_ms end_ms now =
    if ltb now start_ms
    then lit "UPCOMING"
    else if leb now end_ms
    then lit "ACTIVE"
    else lit "ENDED"

pub record Row : Type 0 where
  pub href : Text
  pub title : Text
  pub scoring_type : Text
  pub status : Text

unfoldable pub contest_row : ℕ → Contest → Row
unfolding get_status
contest_row now c = record {
  href = lit "/contests/" ++ to_string c.id;
  title = c.title;
  scoring_type = to_upper_case c.scoring_type;
  status = get_status c.start_ms c.end_ms now;
}

pub data View : Type 0 where
  failed empty : View
  rows : List Row → View

view_of : ℕ → List Contest → View
unfolding contest_row
view_of now [] = empty
view_of now (c ∷ cs) = rows (map (contest_row now) (c ∷ cs))

-- The page, given the answer to its request, of which the list may be missing.
unfoldable pub contests_page : ℕ → Option (Option (List Contest)) → View
unfolding view_of
contests_page now none = failed
contests_page now (some items) = view_of now (or_else items [])
