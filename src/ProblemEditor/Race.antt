-- ===== src/ProblemEditor/Race.antt =====
-- frontend/src/app/manager/problems/page.tsx, lines 171 to 206: two problems opened one after the
-- other, where the answer for the first comes last.
use jjudge.Prelude.{
  ◌≡◌, refl, List, [], ◌∷◌, map, Option, none, some, Text, or_else, true, false, ◌∙◌,
}
use jjudge.Async.{ret, await, set, ◌>>◌}
use jjudge.Async.Schedule.{Page, Reach, settle, start, answer, here, next}
use jjudge.ProblemEditor.{ApiGroup, Problem, Editor, Request, get_problem, Answer, Handler}
use jjudge.ProblemEditor.Handlers.{handle_edit, fill_form, fill_fields, set_groups, detailed}
use jjudge.ProblemEditor.Events.{edit, enabled, handler, shown, Offers}

-- The groups leave the other fields alone.
set_groups-fields :
    (gs : List ApiGroup) (s : Editor)
    → ((set_groups gs s).title ≡ s.title) × ((set_groups gs s).editing_id ≡ s.editing_id)
unfolding set_groups
set_groups-fields [] s = (refl, refl)
set_groups-fields (g ∷ gs) s = (refl, refl)

fill_form-fields :
    (d : Problem) (s : Editor)
    → ((fill_form (some d) s).title ≡ or_else d.title [])
      × ((fill_form (some d) s).editing_id ≡ s.editing_id)
unfolding fill_form fill_fields
fill_form-fields d s = set_groups-fields (or_else d.testcase_groups []) (fill_fields (some d) s)

-- What is left of `handleEdit` at its await.
rest : Option (Option Problem) → Handler
rest a = detailed a >> set (λ s. record s { loading_problem = false })

-- The state after the first part of `handleEdit`, and after an answer.
opened : Problem → Editor → Editor
opened p s = record s { editing_id = some p.id; loading_problem = true; error = none }

filled : Problem → Editor → Editor
filled d s = record (fill_form (some d) s) { loading_problem = false }

-- The page after a click on "Edit" of `p`.
abbrev pub clicked : Text → Problem → Page Request Answer Editor → Page Request Answer Editor
clicked token p m =
    let (s, left) = settle m.state (handle_edit (some token) p) in
    record { state = s; tasks = left ∷ m.tasks }

-- The request that a handler waits for, and what it does once the details have come.
abbrev pub awaited : Handler → Option Request
awaited (await r k) = some r
awaited _ = none

abbrev pub resumed : Problem → Handler → Handler
resumed d (await (get_problem t i) k) = k (some (some d))
resumed d t = t

-- The page after the details `d` have come for the handler that was started last, and for the one before.
abbrev pub answered_last : Problem → Page Request Answer Editor → Page Request Answer Editor
answered_last d m = elim m.tasks [
  | [] ↦ m
  | t ∷ ts ↦ let (s, left) = settle m.state (resumed d t) in record { state = s; tasks = left ∷ ts }
]

abbrev pub answered_before : Problem → Page Request Answer Editor → Page Request Answer Editor
answered_before d m = elim m.tasks [
  | [] ↦ m
  | t ∷ ts ↦ elim ts [
    | [] ↦ m
    | u ∷ us ↦
        let (s, left) = settle m.state (resumed d u) in record { state = s; tasks = t ∷ left ∷ us }
  ]
]

-- On a page whose list has the problems `p` and `q`, the user clicks "Edit" of `p` and then of `q`, which asks
-- for the details of both; then the details `c` come for `q`, and those of `p`, `d`, come last. The page can come to
-- this; nothing is pending there, the title in the form is that of `d`, and yet it is `q` that is
-- edited.
pub handle_edit-race :
    (token : Text) (s : Editor) (p q d c : Problem)
    → shown p s.problems ≡ true
    → shown q s.problems ≡ true
    → let asked = clicked token q (clicked token p (record { state = s; tasks = [] })) in
      let end = answered_before d (answered_last c asked) in
      (map awaited asked.tasks ≡ some (get_problem token q.id) ∷ some (get_problem token p.id) ∷ [])
      × Reach (Offers (some token)) (record { state = s; tasks = [] }) end
      × (end.tasks ≡ ret tt ∷ ret tt ∷ [])
      × (end.state.title ≡ or_else d.title [])
      × (end.state.editing_id ≡ some q.id)
unfolding handler enabled handle_edit opened filled rest detailed
handle_edit-race token s p q d c hp hq =
    let pending : Problem → Handler = λ x. await (get_problem token x.id) rest in
    let m₁ : Page Request Answer Editor = record { state = opened p s; tasks = pending p ∷ [] } in
    let m₂ : Page Request Answer Editor = record {
      state = opened q (opened p s);
      tasks = pending q ∷ pending p ∷ [];
    } in
    let m₃ : Page Request Answer Editor = record {
      state = filled c m₂.state;
      tasks = ret tt ∷ pending p ∷ [];
    } in
    (
      refl,
      next {q = m₃}
          (next {q = m₂}
            (next {q = m₁}
              (next here (
                start (handle_edit (some token) p)
                  (record { event = edit p; is_enabled = hp; runs = refl }) refl))
              (start (handle_edit (some token) q)
                (record { event = edit q; is_enabled = hq; runs = refl }) refl))
            (answer [] (pending p ∷ []) (get_problem token q.id) rest (some (some c)) refl refl))
          (answer (ret tt ∷ []) [] (get_problem token p.id) rest (some (some d)) refl refl),
      refl,
      (fill_form-fields d m₃.state).0,
      (fill_form-fields d m₃.state).1 ∙ (fill_form-fields c m₂.state).1,
    )
