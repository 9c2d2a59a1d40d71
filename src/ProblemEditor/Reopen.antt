-- ===== src/ProblemEditor/Reopen.antt =====
-- frontend/src/app/manager/problems/page.tsx: what the form sends of a problem that was opened in it
-- and not changed.
use jjudge.Prelude.{
  ℕ, true, false, suc, ◌+◌, ◌≡◌, refl, ap, ◌∙◌, List, [], ◌∷◌, map_from, length, Option, none, some,
  or_else, Text, lit, All, IsTag, split-join, text_eq, to_string, ◌++◌, ◌==◌, if◌then◌else◌,
}
use jjudge.Async.{set, ◌>>◌}
use jjudge.Async.Run.{Oracle, Outcome, run}
use jjudge.ProblemEditor.Submit.{Saved, save_request, save_individual, handle_submit_lem}
use jjudge.ProblemEditor.{
  FormData, Visibility, public, private, individual, get_problem, put_problem, Request, Answer,
  ApiGroup, ApiTestcase, Problem, Editor, TestcaseMeta, GroupMeta, json,
}
use jjudge.ProblemEditor.Groups.{
  create_testcase, create_group, group_name, get_input_key, get_output_key,
}
use jjudge.ProblemEditor.Payload.{
  normalized_tags, testcase_meta, group_meta, metadata, append_file, testcase_files, group_files,
  all_files, individual_form,
}
use jjudge.ProblemEditor.Handlers.{
  fresh_testcases, fresh_group, fresh_groups, set_groups, fill_fields, groups_of, fill_form,
  visibility_of, join_tags, detailed, handle_edit, handle_submit,
}

-- What is sent of a testcase and of a group of the server: its place, and neither a group's own name
-- nor its points.
abbrev pub case_meta : ℕ → ℕ → ApiTestcase → TestcaseMeta
case_meta i j t = record { ordinal = j; in_key = get_input_key i j; out_key = get_output_key i j }

-- The names that a group and a problem's visibility are sent under.
abbrev pub default_name : ℕ → Text
default_name i = if i == 0 then lit "Sample" else lit "Group " ++ to_string (i + 1)

abbrev pub same_visibility : Option Text → Visibility
same_visibility none = public
same_visibility (some v) = if text_eq v (lit "private") then private else public

abbrev pub reset_group : ℕ → ApiGroup → GroupMeta
reset_group i g = record {
  ordinal = i;
  name = default_name i;
  points = 100;
  testcases = some (map_from (case_meta i) 0 (or_else g.testcases []));
}

-- A problem without groups gets one, with one testcase.
abbrev pub sent_groups : List ApiGroup → List ApiGroup
sent_groups [] = record { testcases = some (record { in_key = none; out_key = none } ∷ []) } ∷ []
sent_groups (g ∷ gs) = g ∷ gs

fresh_testcases-meta :
    (i u j : ℕ) (ts : List ApiTestcase)
    → map_from (testcase_meta i) j (fresh_testcases u j ts) ≡ map_from (case_meta i) j ts
unfolding fresh_testcases create_testcase testcase_meta
fresh_testcases-meta i u j [] = refl
fresh_testcases-meta i u j (t ∷ ts) =
    ap (λ l. case_meta i j t ∷ l) (fresh_testcases-meta i (u + 1) (suc j) ts)

fresh_groups-meta :
    (u i : ℕ) (gs : List ApiGroup)
    → map_from group_meta i (fresh_groups u i gs) ≡ map_from reset_group i gs
unfolding fresh_groups fresh_group group_meta group_name
fresh_groups-meta u i [] = refl
fresh_groups-meta u i (g ∷ gs) =
    let ts = or_else g.testcases [] in
    let e = fresh_testcases-meta i (u + 1) 0 ts in
    rw e (ap (λ l. reset_group i g ∷ l) (fresh_groups-meta (u + 1 + length ts) (suc i) gs))

-- A testcase that was just made has no files.
fresh_testcases-files :
    (i u j : ℕ) (ts : List ApiTestcase) → group_files i j (fresh_testcases u j ts) ≡ []
unfolding fresh_testcases create_testcase group_files testcase_files append_file
fresh_testcases-files i u j [] = refl
fresh_testcases-files i u j (t ∷ ts) = fresh_testcases-files i (u + 1) (suc j) ts

fresh_groups-files : (u i : ℕ) (gs : List ApiGroup) → all_files i (fresh_groups u i gs) ≡ []
unfolding fresh_groups fresh_group all_files
fresh_groups-files u i [] = refl
fresh_groups-files u i (g ∷ gs) =
    let ts = or_else g.testcases [] in
    rw (fresh_testcases-files i (u + 1) 0 ts) (fresh_groups-files (u + 1 + length ts) (suc i) gs)

metadata-set_groups :
    (gs : List ApiGroup) (s : Editor)
    → metadata (set_groups gs s)
      ≡ record (metadata s) { testcase_groups = map_from reset_group 0 (sent_groups gs) }
unfolding metadata set_groups create_group create_testcase group_meta testcase_meta group_name
metadata-set_groups [] s = refl
metadata-set_groups (g ∷ gs) s = rw (fresh_groups-meta s.supply 0 (g ∷ gs)) refl

set_groups-files : (gs : List ApiGroup) (s : Editor) → all_files 0 (set_groups gs s).groups ≡ []
unfolding set_groups create_group create_testcase all_files group_files testcase_files append_file
set_groups-files [] s = refl
set_groups-files (g ∷ gs) s = fresh_groups-files s.supply 0 (g ∷ gs)

normalized_tags-join_tags :
    (o : Option (List Text)) (tags : List Text)
    → o ≡ some tags
    → All IsTag tags
    → normalized_tags (join_tags o) ≡ tags
unfolding normalized_tags join_tags
normalized_tags-join_tags o tags e h = rw e (split-join tags h)

-- What is sent of the details `d` of a problem that was not changed, with the tags `tags`: the details that
-- are missing by their defaults, and the groups under default names, with 100 points each.
abbrev pub unchanged : Problem → List Text → FormData
unchanged d tags =
    (
      lit "metadata",
      json (record {
        title = or_else d.title [];
        description = or_else d.description [];
        difficulty = or_else d.difficulty 0;
        time_limit = or_else d.time_limit 1000;
        memory_limit = or_else d.memory_limit 268435456;
        tags = tags;
        visibility = same_visibility d.visibility;
        testcase_groups = map_from reset_group 0 (sent_groups (or_else d.testcase_groups []));
      }),
    )
    ∷ []

visibility_of-same : (v : Option Text) → visibility_of v ≡ same_visibility v
unfolding visibility_of
visibility_of-same none = refl
visibility_of-same (some v) = refl

individual_form-fill_form :
    (d : Problem) (s : Editor) (tags : List Text)
    → d.tags ≡ some tags
    → All IsTag tags
    → individual_form (fill_form (some d) s) ≡ unchanged d tags
unfolding individual_form fill_form fill_fields groups_of metadata
individual_form-fill_form d s tags e h =
    let v = visibility_of-same d.visibility in
    let gs = or_else d.testcase_groups [] in
    let f = fill_fields (some d) s in
    rw (set_groups-files gs f)
      (rw (metadata-set_groups gs f) (rw (normalized_tags-join_tags d.tags tags e h, v) refl))

-- The form keeps the problem that is edited, the list and the way of sending.
set_groups-kept :
    (gs : List ApiGroup) (s : Editor)
    → ((set_groups gs s).editing_id ≡ s.editing_id)
      × ((set_groups gs s).upload_mode ≡ s.upload_mode)
      × ((set_groups gs s).problems ≡ s.problems)
unfolding set_groups
set_groups-kept [] s = (refl, refl, refl)
set_groups-kept (g ∷ gs) s = (refl, refl, refl)

fill_form-kept :
    (d : Problem) (s : Editor)
    → ((fill_form (some d) s).editing_id ≡ s.editing_id)
      × ((fill_form (some d) s).upload_mode ≡ s.upload_mode)
      × ((fill_form (some d) s).problems ≡ s.problems)
unfolding fill_form fill_fields groups_of
fill_form-kept d s = set_groups-kept (or_else d.testcase_groups []) (fill_fields (some d) s)

-- The state after the details have come.
opened : Problem → Problem → Editor → Editor
opened p d s =
    record (fill_form (some d)
      (record s { editing_id = some p.id; loading_problem = true; error = none })) {
        loading_problem = false;
      }

open_lem :
    (o : Oracle Request Answer) (s : Editor) (t : Text) (p d : Problem)
    (a : Option (Option Problem))
    → a ≡ some (some d)
    → let u = record s { editing_id = some p.id; loading_problem = true; error = none } in
      let out =
        run o
          (get_problem t p.id ∷ [])
          u
          (detailed a >> set (λ s. record s { loading_problem = false })) in
      (out.sent ≡ get_problem t p.id ∷ []) × (out.state ≡ opened p d s)
unfolding detailed opened
open_lem o s t p d a e = rw e (refl, refl)

same_request :
    (o : Oracle Request Answer) (t : Text) (out : Outcome Request Editor (Unit {0}))
    (i j : Option ℕ) (ps qs : List Problem) (r q : Option Request)
    → i ≡ j
    → ps ≡ qs
    → r ≡ q
    → Saved o t i ps r out
    → Saved o t j qs q out
same_request o t out i j ps qs r q a b c k = rw c at (rw b at (rw a at k))

submit_lem :
    (o : Oracle Request Answer) (u : Editor) (t : Text) (i : ℕ) (ps : List Problem) (f : FormData)
    → u.editing_id ≡ some i
    → u.upload_mode ≡ individual
    → u.problems ≡ ps
    → individual_form u ≡ f
    → Saved o t (some i) ps (some (put_problem t i f)) (run o [] u (handle_submit (some t) u))
submit_lem o u t i ps f a b c d =
    same_request o t (run o [] u (handle_submit (some t) u)) u.editing_id (some i) u.problems ps
      (save_request t u u.upload_mode) (some (put_problem t i f)) a c
      (ap (save_request t u) b
        ∙ ap (λ e. some (save_individual t u e)) a
        ∙ ap (λ g. some (put_problem t i g)) d)
      (((handle_submit_lem o u).1 t).0)

opened_lem :
    (s : Editor) (p d : Problem) (tags : List Text)
    → d.tags ≡ some tags
    → All IsTag tags
    → ((opened p d s).editing_id ≡ some p.id)
      × ((opened p d s).upload_mode ≡ s.upload_mode)
      × ((opened p d s).problems ≡ s.problems)
      × (individual_form (opened p d s) ≡ unchanged d tags)
unfolding opened individual_form metadata
opened_lem s p d tags e h =
    let u = record s { editing_id = some p.id; loading_problem = true; error = none } in
    let (a, b, c) = fill_form-kept d u in
    (a, b, c, unfold individual_form metadata in individual_form-fill_form d u tags e h)

-- A problem that is opened, whose details come with a list of tags of which none is empty, has a comma,
-- or has white space around it, and that is then submitted without a change, in the mode of single files.
-- The one request that saves it is an update of this problem, with the title, description, difficulty,
-- limits, visibility and tags of its details, those that are missing by their defaults. Its groups are
-- sent with as many testcases as they have, but under the names "Sample", "Group 2" and so on, and with
-- 100 points each; where it has no group, one with one testcase is sent. No file is sent.
pub handle_edit-handle_submit :
    (o : Oracle Request Answer) (s : Editor) (t : Text) (p d : Problem) (tags : List Text)
    → s.upload_mode ≡ individual
    → o [] (get_problem t p.id) ≡ some (some d)
    → d.tags ≡ some tags
    → All IsTag tags
    → let edited = run o [] s (handle_edit (some t) p) in
      (edited.sent ≡ get_problem t p.id ∷ [])
      × Saved o t
          (some p.id)
          s.problems
          (some (put_problem t p.id (unchanged d tags)))
          (run o [] edited.state (handle_submit (some t) edited.state))
unfolding handle_edit
handle_edit-handle_submit o s t p d tags m a e h =
    let (sent, state) = open_lem o s t p d (o [] (get_problem t p.id)) a in
    let (i, mode, ps, form) = opened_lem s p d tags e h in
    (
      sent,
      rw state
          (submit_lem o (opened p d s) t p.id s.problems (unchanged d tags) i (mode ∙ m) ps form),
    )
