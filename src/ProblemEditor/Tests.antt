-- ===== src/ProblemEditor/Tests.antt =====
-- The theorems on the problem editor at concrete inputs.
use jjudge.Prelude.{
  map, ℕ, ◌≡◌, refl, [], ◌∷◌, none, some, Text, lit, get_elem?, to_string, split, trim, IsTag,
}
use jjudge.Async.{ret}
use jjudge.Async.Run.{Oracle, run}
use jjudge.Async.Schedule.{Page, Reach, start, here, next}
use jjudge.ProblemEditor.{
  Problem, Editor, Request, Answer, list_problems, get_problem, post_problem, post_zip, put_problem,
  put_zip,
}
use jjudge.ProblemEditor.Groups.{get_input_key, get_output_key, add_group}
use jjudge.ProblemEditor.Payload.{individual_form, normalized_tags}
use jjudge.ProblemEditor.Handlers.{initial, handle_edit, handle_submit}
use jjudge.ProblemEditor.Events.{Offers, click_add_group, shown, enabled, handler}
use jjudge.ProblemEditor.Ids.{IsValid}
use jjudge.ProblemEditor.Reachable.{Reach-IsValid}
use jjudge.ProblemEditor.Files.{get_all, entries, chosen, testcases_of, get_all-individual_form}
use jjudge.ProblemEditor.Submit.{Saved, SameForm, save_request, handle_submit_lem}
use jjudge.ProblemEditor.Reopen.{unchanged, handle_edit-handle_submit}
use jjudge.ProblemEditor.Race.{awaited, clicked, answered_last, answered_before, handle_edit-race}

get_input_key_test : get_input_key 0 11 ≡ lit "group_1_case_12.in"
unfolding get_input_key lit to_string
get_input_key_test = refl

normalized_tags_test : normalized_tags (lit "arrays,  math ,,") ≡ lit "arrays" ∷ lit "math" ∷ []
unfolding normalized_tags lit split trim
normalized_tags_test = refl

abbrev two_groups : Page Request Answer Editor
two_groups = record { state = add_group initial; tasks = ret tt ∷ [] }

Reach-IsValid_example : IsValid (add_group initial)
unfolding handler enabled
Reach-IsValid_example =
    Reach-IsValid none two_groups (
      next here (start _ (record { event = click_add_group; is_enabled = refl; runs = refl }) refl))

get_all-individual_form_example :
    let t = get_elem? (testcases_of (get_elem? initial.groups 0)) 0 in
    (get_all (get_input_key 0 0) (individual_form initial) ≡ entries (chosen (λ t. t.in_file) t))
    × (get_all (get_output_key 0 0) (individual_form initial)
        ≡ entries (chosen (λ t. t.out_file) t))
get_all-individual_form_example = get_all-individual_form initial 0 0

-- A server that takes everything.
abbrev accept : Oracle Request Answer
accept h (list_problems t) = some none
accept h (get_problem t i) = some none
accept h (post_problem t f) = some tt
accept h (post_zip t f) = some tt
accept h (put_problem t i f) = some tt
accept h (put_zip t i f) = some tt

handle_submit_lem_example :
    (let out = run accept [] initial (handle_submit none initial) in
      (out.sent ≡ [])
      × (out.state.error ≡ some (lit "You must be signed in to create or update problems."))
      × SameForm initial out.state)
    × ((t : Text)
        → let out = run accept [] initial (handle_submit (some t) initial) in
          Saved accept t initial.editing_id initial.problems
            (save_request t initial initial.upload_mode)
            out
          × SameForm initial out.state)
handle_submit_lem_example = handle_submit_lem accept initial

abbrev problem : ℕ → Text → Problem
problem i x = record {
  id = i;
  title = some x;
  description = none;
  difficulty = none;
  time_limit = none;
  memory_limit = none;
  tags = none;
  visibility = none;
  approval_status = none;
  testcase_groups = none;
}

abbrev listed : Editor
listed = record initial { problems = problem 1 (lit "one") ∷ problem 2 (lit "two") ∷ [] }

handle_edit-race_example :
    let first = problem 1 (lit "one") in
    let second = problem 2 (lit "two") in
    let asked =
      clicked
        (lit "token")
        second
        (clicked (lit "token") first (record { state = listed; tasks = [] })) in
    let end = answered_before first (answered_last second asked) in
    (map awaited asked.tasks
      ≡ some (get_problem (lit "token") 2) ∷ some (get_problem (lit "token") 1) ∷ [])
    × Reach (Offers (some (lit "token"))) (record { state = listed; tasks = [] }) end
    × (end.tasks ≡ ret tt ∷ ret tt ∷ [])
    × (end.state.title ≡ lit "one")
    × (end.state.editing_id ≡ some 2)
unfolding shown
handle_edit-race_example =
    handle_edit-race (lit "token") listed (problem 1 (lit "one")) (problem 2 (lit "two"))
      (problem 1 (lit "one")) (problem 2 (lit "two")) refl refl

math-IsTag : IsTag (lit "math")
unfolding trim lit
math-IsTag = record { is_trimmed = refl; is_truthy = refl; has_no_comma = refl }

abbrev one : Problem
one = record (problem 1 (lit "one")) {
  tags = some (lit "math" ∷ []);
  visibility = some (lit "private");
  testcase_groups = some (
      record { testcases = some (record { in_key = none; out_key = none } ∷ []) }
      ∷ record { testcases = none }
      ∷ []);
}

-- A server that knows the details of the problem.
abbrev details : Oracle Request Answer
details h (list_problems t) = some none
details h (get_problem t i) = some (some one)
details h (post_problem t f) = some tt
details h (post_zip t f) = some tt
details h (put_problem t i f) = some tt
details h (put_zip t i f) = some tt

handle_edit-handle_submit_example :
    let edited = run details [] listed (handle_edit (some (lit "token")) one) in
    (edited.sent ≡ get_problem (lit "token") 1 ∷ [])
    × Saved details
        (lit "token")
        (some 1)
        listed.problems
        (some (put_problem (lit "token") 1 (unchanged one (lit "math" ∷ []))))
        (run details [] edited.state (handle_submit (some (lit "token")) edited.state))
unfolding initial
handle_edit-handle_submit_example =
    handle_edit-handle_submit details listed (lit "token") one one (lit "math" ∷ []) refl refl refl
      (math-IsTag, tt)
