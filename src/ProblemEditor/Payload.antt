-- ===== src/ProblemEditor/Payload.antt =====
-- frontend/src/app/manager/problems/page.tsx: what the form sends.
use jjudge.Prelude.{
  ℕ, suc, List, [], ◌∷◌, ◌++◌, map, Option, none, some, filter, map_from, Text, lit, split, trim,
  truthy,
}
use jjudge.ProblemEditor.{
  Testcase, TestcaseGroup, Editor, File, TestcaseMeta, GroupMeta, Metadata, json, file, FormData,
}
use jjudge.ProblemEditor.Groups.{get_input_key, get_output_key}

-- The tags, separated by commas, without white space around them and without empty ones.
unfoldable pub normalized_tags : Text → List Text
normalized_tags tags = filter truthy (map trim (split b',' tags))

unfoldable pub testcase_meta : ℕ → ℕ → Testcase → TestcaseMeta
testcase_meta group_index testcase_index t = record {
  ordinal = testcase_index;
  in_key = get_input_key group_index testcase_index;
  out_key = get_output_key group_index testcase_index;
}

unfoldable pub group_meta : ℕ → TestcaseGroup → GroupMeta
unfolding testcase_meta
group_meta group_index g = record {
  ordinal = group_index;
  name = g.name;
  points = g.points;
  testcases = some (map_from (testcase_meta group_index) 0 g.testcases);
}

unfoldable pub zip_group_meta : ℕ → TestcaseGroup → GroupMeta
zip_group_meta group_index g = record {
  ordinal = group_index;
  name = g.name;
  points = g.points;
  testcases = none;
}

unfoldable pub metadata : Editor → Metadata
unfolding normalized_tags group_meta
metadata s = record {
  title = s.title;
  description = s.description;
  difficulty = s.difficulty;
  time_limit = s.time_limit;
  memory_limit = s.memory_limit;
  tags = normalized_tags s.tags;
  visibility = s.visibility;
  testcase_groups = map_from group_meta 0 s.groups;
}

unfoldable pub zip_metadata : Editor → Metadata
unfolding metadata zip_group_meta
zip_metadata s = record (metadata s) { testcase_groups = map_from zip_group_meta 0 s.groups }

-- `if (file) formData.append(key, file)`
unfoldable pub append_file : Text → Option File → FormData
append_file key none = []
append_file key (some f) = (key, file f) ∷ []

unfoldable pub testcase_files : ℕ → ℕ → Testcase → FormData
unfolding append_file
testcase_files group_index testcase_index t =
    append_file (get_input_key group_index testcase_index) t.in_file
    ++ append_file (get_output_key group_index testcase_index) t.out_file

unfoldable pub group_files : ℕ → ℕ → List Testcase → FormData
unfolding testcase_files
group_files group_index i [] = []
group_files group_index i (t ∷ ts) =
    testcase_files group_index i t ++ group_files group_index (suc i) ts

unfoldable pub all_files : ℕ → List TestcaseGroup → FormData
unfolding group_files
all_files i [] = []
all_files i (g ∷ gs) = group_files i 0 g.testcases ++ all_files (suc i) gs

-- The two forms that `handleSubmit` fills.
unfoldable pub individual_form : Editor → FormData
unfolding metadata all_files
individual_form s = (lit "metadata", json (metadata s)) ∷ all_files 0 s.groups

unfoldable pub zip_form : Editor → File → FormData
unfolding zip_metadata
zip_form s archive =
    (lit "metadata", json (zip_metadata s)) ∷ (lit "testcases_zip", file archive) ∷ []
