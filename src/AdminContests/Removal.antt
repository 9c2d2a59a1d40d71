-- ===== src/AdminContests/Removal.antt =====
-- frontend/src/app/admin/contests/page.tsx: what `handleDelete` and `handleRejudge` leave behind.
use jjudge.Prelude.{
  ℕ, ◌≡◌, refl, Bool, true, false, not, List, [], ◌∷◌, Option, none, some, filter, ◌==◌, Text, lit,
}
use jjudge.Async.Run.{Oracle, Outcome, run, is_taken}
use jjudge.ContestManager.{Contest, Manager}
use jjudge.AdminContests.{Request, delete_contest, post_rejudge, Answer}
use jjudge.AdminContests.Handlers.{deleted, handle_delete, rejudged, rejudge_in, handle_rejudge}

abbrev pub without : ℕ → List Contest → List Contest
without id xs = filter (λ c. not (c.id == id)) xs

-- What a click on "Delete" comes to, by the user's answer and the server's. The form and the panel
-- stay as they are, also where they are about the contest.
abbrev pub Deleted : Bool → Bool → Text → ℕ → Manager → Outcome Request Manager (Unit {0}) → Type 0
Deleted false taken t id s r = (r.state ≡ s) × (r.sent ≡ [])
Deleted true true t id s r =
    (r.state ≡ record s { contests = without id s.contests }) × (r.sent ≡ delete_contest t id ∷ [])
Deleted true false t id s r =
    (r.state ≡ record s { error = some (lit "Failed to delete contest.") })
    × (r.sent ≡ delete_contest t id ∷ [])

-- What a click on "Rejudge" comes to.
abbrev pub Rejudged :
    Option ℕ → Bool → Bool → Text → ℕ → Manager → Outcome Request Manager (Unit {0}) → Type 0
Rejudged none confirmed taken t j s r = (r.state ≡ s) × (r.sent ≡ [])
Rejudged (some i) false taken t j s r = (r.state ≡ s) × (r.sent ≡ [])
Rejudged (some i) true true t j s r =
    (r.state ≡ record s { problem_status = some (lit "Rejudge enqueued.") })
    × (r.sent ≡ post_rejudge t i j ∷ [])
Rejudged (some i) true false t j s r =
    (r.state ≡ record s { problem_status = some (lit "Failed to rejudge.") })
    × (r.sent ≡ post_rejudge t i j ∷ [])

module _ (o : Oracle Request Answer) (t : Text) (s : Manager) where
  deleted-Deleted :
      (id : ℕ) (a : Option (Unit {0}))
      → Deleted true (is_taken a) t id s (run o (delete_contest t id ∷ []) s (deleted id a))
  unfolding deleted
  deleted-Deleted id none = (refl, refl)
  deleted-Deleted id (some _) = (refl, refl)

  delete-Deleted :
      (id : ℕ) (confirmed : Bool)
      → Deleted confirmed
          (is_taken (o [] (delete_contest t id)))
          t
          id
          s
          (run o [] s (handle_delete (some t) id confirmed))
  unfolding handle_delete
  delete-Deleted id false = (refl, refl)
  delete-Deleted id true = deleted-Deleted id (o [] (delete_contest t id))

  rejudged-Rejudged :
      (i j : ℕ) (a : Option (Unit {0}))
      → Rejudged (some i) true (is_taken a) t j s (run o (post_rejudge t i j ∷ []) s (rejudged a))
  unfolding rejudged
  rejudged-Rejudged i j none = (refl, refl)
  rejudged-Rejudged i j (some _) = (refl, refl)

-- Whether the server takes the request of a rejudge in the open contest, if one is open.
abbrev pub is_rejudge_taken : Oracle Request Answer → Text → Option ℕ → ℕ → Bool
is_rejudge_taken o t none j = false
is_rejudge_taken o t (some i) j = is_taken (o [] (post_rejudge t i j))

module _ (o : Oracle Request Answer) (t : Text) (s : Manager) where
  rejudge_in-Rejudged :
      (m : Option ℕ) (j : ℕ) (confirmed : Bool)
      → Rejudged m confirmed
          (is_rejudge_taken o t m j)
          t
          j
          s
          (run o [] s (rejudge_in t m j confirmed))
  unfolding rejudge_in
  rejudge_in-Rejudged none j confirmed = (refl, refl)
  rejudge_in-Rejudged (some i) j false = (refl, refl)
  rejudge_in-Rejudged (some i) j true = rejudged-Rejudged o t s i j (o [] (post_rejudge t i j))

  -- An administrator who deletes a contest or rejudges a problem is asked first, and nothing happens
  -- without the confirmation. A deleted contest leaves the list of whatever state the page is in, and
  -- neither the form nor the panel, which may still be about it; a refusal changes the error only.
  -- A rejudge is asked for in the contest of the open panel, if there is one, and only its message
  -- changes.
  pub handle_delete-handle_rejudge :
      (id j : ℕ) (confirmed : Bool)
      → Deleted confirmed
          (is_taken (o [] (delete_contest t id)))
          t
          id
          s
          (run o [] s (handle_delete (some t) id confirmed))
        × Rejudged s.managing_contest_id confirmed
            (is_rejudge_taken o t s.managing_contest_id j)
            t
            j
            s
            (run o [] s (handle_rejudge (some t) s j confirmed))
  unfolding handle_rejudge
  handle_delete-handle_rejudge id j confirmed =
      (delete-Deleted o t s id confirmed, rejudge_in-Rejudged s.managing_contest_id j confirmed)
