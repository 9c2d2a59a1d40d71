-- ===== src/AdminProblems/Deletion.antt =====
-- frontend/src/app/admin/problems/page.tsx: what a deletion comes to.
use jjudge.Prelude.{
  ℕ, ◌≡◌, ◌≢◌, refl, ap, Bool, true, false, List, [], ◌∷◌, Option, none, some, Text, lit, ◌==◌,
  arith,
}
use jjudge.Async.{set, ◌>>◌}
use jjudge.Async.Run.{Oracle, Outcome, run, is_taken}
use jjudge.Async.Schedule.{settle}
use jjudge.ProblemEditor.{Editor}
use jjudge.AdminProblems.{Body, normalize_problems, Request, list_problems, delete_problem, Answer}
use jjudge.AdminProblems.Handlers.{
  listed, load_problems, is_edited, reset_if, deleted, delete_confirmed, handle_delete,
}

-- The page after it has asked for the list.
abbrev pub shown : Option Body → Editor → Editor
shown none s = record s { loading = false; error = some (lit "Failed to load problems.") }
shown (some b) s = record s { problems = normalize_problems b; loading = false; error = none }

listed_lem :
    (o : Oracle Request Answer) (h : List Request) (s : Editor) (a : Option Body)
    → let out =
        run o h
          (record s { loading = true; error = none })
          (listed a >> set (λ s. record s { loading = false })) in
      (out.sent ≡ h) × (out.state ≡ shown a s)
unfolding listed
listed_lem o h s none = (refl, refl)
listed_lem o h s (some b) = (refl, refl)

load_problems_lem :
    (o : Oracle Request Answer) (h : List Request) (s : Editor) (t : Text)
    → let out = run o h s (load_problems (some t)) in
      (out.sent ≡ list_problems t ∷ h) × (out.state ≡ shown (o h (list_problems t)) s)
unfolding load_problems
load_problems_lem o h s t = listed_lem o (list_problems t ∷ h) s (o h (list_problems t))

-- The deletion, given whether the server takes it.
abbrev pub Ended :
    Bool → Oracle Request Answer → Text → ℕ → Editor → Outcome Request Editor (Unit {0}) → Type 0
Ended false o t id s out =
    (out.sent ≡ delete_problem t id ∷ [])
    × (out.state ≡ record s { error = some (lit "Delete failed. Try again.") })
Ended true o t id s out =
    let h = delete_problem t id ∷ [] in
    (out.sent ≡ list_problems t ∷ h)
    × (out.state
        ≡ shown (o h (list_problems t))
            (reset_if (is_edited s.editing_id id) (record s { error = none })))

-- And given what the user answers.
abbrev pub Deleted :
    Bool → Oracle Request Answer → Text → ℕ → Editor → Outcome Request Editor (Unit {0}) → Type 0
Deleted false o t id s out = (out.sent ≡ []) × (out.state ≡ s)
Deleted true o t id s out = Ended (is_taken (o [] (delete_problem t id))) o t id s out

deleted_lem :
    (o : Oracle Request Answer) (s : Editor) (t : Text) (id : ℕ) (a : Option (Unit {0}))
    → Ended
        (is_taken a)
        o
        t
        id
        s
        (run o (delete_problem t id ∷ []) (record s { error = none }) (deleted t s.editing_id id a))
unfolding deleted
deleted_lem o s t id none = (refl, refl)
deleted_lem o s t id (some x) =
    load_problems_lem o (delete_problem t id ∷ [])
      (reset_if (is_edited s.editing_id id) (record s { error = none })) t

delete_confirmed_lem :
    (o : Oracle Request Answer) (s : Editor) (t : Text) (id : ℕ) (b : Bool)
    → Deleted b o t id s (run o [] s (delete_confirmed t s id b))
unfolding delete_confirmed
delete_confirmed_lem o s t id false = (refl, refl)
delete_confirmed_lem o s t id true = deleted_lem o s t id (o [] (delete_problem t id))

-- A deletion asks first, and does nothing where the user does not confirm. Else it sends one request;
-- where that is taken, the form is reset if it was the deleted problem that was edited, and the list is
-- loaded anew; where it fails only the message changes.
pub handle_delete-Deleted :
    (o : Oracle Request Answer) (s : Editor) (t : Text) (id : ℕ) (confirmed : Bool)
    → Deleted confirmed o t id s (run o [] s (handle_delete (some t) s id confirmed))
unfolding handle_delete
handle_delete-Deleted o s t id confirmed = delete_confirmed_lem o s t id confirmed

kept-reset_if : (i : Option ℕ) (id : ℕ) (u : Editor) → i ≢ some id → reset_if (is_edited i id) u ≡ u
unfolding reset_if is_edited
kept-reset_if none id u h = refl
kept-reset_if (some i) id u h =
    let other : (i == id) ≡ false = ground (arith, λ (e : i ≡ id). h (ap some e)) in rw other refl

-- Where problem `id` is opened after the click that deletes it, and before the server has answered, the
-- form stays on it: the handler compares with the id that was edited at the click.
pub deleted-stale :
    (t : Text) (i : Option ℕ) (id : ℕ) (u : Editor)
    → i ≢ some id
    → u.editing_id ≡ some id
    → (settle u (deleted t i id (some tt))).0.editing_id ≡ some id
unfolding deleted load_problems
deleted-stale t i id u h e = rw (kept-reset_if i id u h) e
