-- ===== src/ContestList/Tests.antt =====
-- The list of contests at a concrete contest.
use jjudge.Prelude.{◌≡◌, refl, [], none, some, lit, to_upper_case}
use jjudge.Contest.{Contest, contest_body}
use jjudge.ContestList.{contest_row, contests_page, empty}
use jjudge.ContestList.States.{contest_row-contest_body}

abbrev contest : Contest
contest = record {
  id = 4;
  title = lit "Spring Round";
  description = none;
  start_ms = 10;
  end_ms = 20;
  scoring_type = lit "icpc";
  visibility = lit "public";
  problems = none;
}

contests_page_test : contests_page 15 (some (some [])) ≡ empty
unfolding contests_page
contests_page_test = refl

contest_row-contest_body_example :
    (contest_row 15 contest).status ≡ to_upper_case (contest_body contest 15).badge
contest_row-contest_body_example = contest_row-contest_body 15 contest
