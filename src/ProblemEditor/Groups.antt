-- ===== src/ProblemEditor/Groups.antt =====
-- frontend/src/app/manager/problems/page.tsx: the testcase groups of the form.
use jjudge.Prelude.{
  ℕ, ◌+◌, not, List, [], ◌∷◌, ◌++◌, map, none, ◌==◌, if◌then◌else◌, filter, length, Text, lit,
  to_string,
}
use jjudge.ProblemEditor.{Testcase, TestcaseGroup, Editor}

unfoldable pub create_testcase : ℕ → ℕ → Testcase
create_testcase uuid index = record { id = uuid; ordinal = index; in_file = none; out_file = none }

unfoldable pub group_name : ℕ → Text
group_name index = if index == 0 then lit "Sample" else lit "Group " ++ to_string (index + 1)

-- The group takes one id, and its first testcase the next.
unfoldable pub create_group : ℕ → ℕ → TestcaseGroup
unfolding group_name create_testcase
create_group uuid index = record {
  id = uuid;
  ordinal = index;
  name = group_name index;
  points = 100;
  testcases = create_testcase (uuid + 1) 0 ∷ [];
}

unfoldable pub get_input_key : ℕ → ℕ → Text
get_input_key group_index testcase_index =
    lit "group_"
    ++ (to_string (group_index + 1)
        ++ (lit "_case_" ++ (to_string (testcase_index + 1) ++ lit ".in")))

unfoldable pub get_output_key : ℕ → ℕ → Text
get_output_key group_index testcase_index =
    lit "group_"
    ++ (to_string (group_index + 1)
        ++ (lit "_case_" ++ (to_string (testcase_index + 1) ++ lit ".out")))

-- The updaters that the handlers give to `setGroups`.
unfoldable pub map_group :
    ℕ → (TestcaseGroup → TestcaseGroup) → List TestcaseGroup → List TestcaseGroup
map_group group_id updater = map (λ g. if g.id == group_id then updater g else g)

unfoldable pub map_testcase : ℕ → (Testcase → Testcase) → TestcaseGroup → TestcaseGroup
map_testcase testcase_id updater g = record g {
  testcases = map (λ t. if t.id == testcase_id then updater t else t) g.testcases;
}

unfoldable pub update_group : ℕ → (TestcaseGroup → TestcaseGroup) → Editor → Editor
unfolding map_group
update_group group_id updater s = record s { groups = map_group group_id updater s.groups }

unfoldable pub update_testcase : ℕ → ℕ → (Testcase → Testcase) → Editor → Editor
unfolding map_testcase update_group
update_testcase group_id testcase_id updater s =
    update_group group_id (map_testcase testcase_id updater) s

unfoldable pub add_group : Editor → Editor
unfolding create_group
add_group s = record s {
  groups = s.groups ++ create_group s.supply (length s.groups) ∷ [];
  supply = s.supply + 2;
}

unfoldable pub remove_group : ℕ → Editor → Editor
remove_group group_id s = record s { groups = filter (λ g. not (g.id == group_id)) s.groups }

unfoldable pub append_testcase : ℕ → TestcaseGroup → TestcaseGroup
append_testcase uuid g = record g {
  testcases = g.testcases ++ create_testcase uuid (length g.testcases) ∷ [];
}

unfoldable pub add_testcase : ℕ → Editor → Editor
unfolding append_testcase update_group
add_testcase group_id s = record (update_group group_id (append_testcase s.supply) s) {
  supply = s.supply + 1;
}

unfoldable pub drop_testcase : ℕ → TestcaseGroup → TestcaseGroup
drop_testcase testcase_id g = record g {
  testcases = filter (λ t. not (t.id == testcase_id)) g.testcases;
}

unfoldable pub remove_testcase : ℕ → ℕ → Editor → Editor
unfolding drop_testcase update_group
remove_testcase group_id testcase_id s = update_group group_id (drop_testcase testcase_id) s
