-- ===== src/Submissions/Mine/Load.antt =====
-- frontend/src/app/problems/[id]/submissions/mine/page.tsx: what the effect that loads comes to.
use jjudge.Prelude.{◌≡◌, refl, false, List, [], ◌∷◌, Option, none, some, or_else, Text, lit, ℕ}
use jjudge.Async.Run.{Oracle, Outcome, run}
use jjudge.Submissions.{Submission}
use jjudge.Submissions.Mine.{
  Problem, Mine, Session, credentials, Request, load_page, Answer, set_submissions, loaded,
  load_for, load,
}

-- The state after the answer `a` to both requests.
abbrev pub shown : Option (Option Problem × Option (List Submission)) → Mine → Mine
shown none s = record s {
  error = some (lit "Failed to load your submissions for this problem.");
  loading = false;
}
shown (some (problem, xs)) s = record (set_submissions (or_else xs []) s) {
  problem = problem;
  error = none;
  loading = false;
}

-- What loading comes to with the problem and the credentials at hand.
abbrev pub Loaded :
    Oracle Request Answer
    → Option Text
    → Option (Text × ℕ)
    → Mine
    → Outcome Request Mine (Unit {0})
    → Type 0
Loaded o none c s out = (out.sent ≡ []) × (out.state ≡ s)
Loaded o (some i) none s out =
    (out.sent ≡ [])
    × (out.state ≡ record s {
      error = some (lit "Please sign in to view your submissions.");
      loading = false;
    })
Loaded o (some i) (some (t, u)) s out =
    (out.sent ≡ load_page i u t ∷ []) × (out.state ≡ shown (o [] (load_page i u t)) s)

loaded_lem :
    (o : Oracle Request Answer) (h : List Request) (s : Mine)
    (a : Option (Option Problem × Option (List Submission)))
    → (run o h s (loaded a)).sent ≡ h × (run o h s (loaded a)).state ≡ shown a s
unfolding loaded set_submissions
loaded_lem o h s none = (refl, refl)
loaded_lem o h s (some (problem, xs)) = (refl, refl)

load_for_lem :
    (o : Oracle Request Answer) (s : Mine) (i : Option Text) (c : Option (Text × ℕ))
    → Loaded o i c s (run o [] s (load_for i c))
unfolding load_for
load_for_lem o s none c = (refl, refl)
load_for_lem o s (some i) none = (refl, refl)
load_for_lem o s (some i) (some (t, u)) =
    loaded_lem o (load_page i u t ∷ []) s (o [] (load_page i u t))

-- Loading asks for the problem and the submissions of the user only where the address has a problem
-- and there are a token and a user's id other than 0; it then shows both, or the message of the
-- failure; without credentials it asks the user to sign in. In all three cases the page is no longer
-- loading. Without a problem nothing happens.
pub load-Loaded :
    (o : Oracle Request Answer) (s : Mine) (v : Session)
    → Loaded o v.problem_id (credentials v.token v.user_id) s (run o [] s (load v))
unfolding load
load-Loaded o s v = load_for_lem o s v.problem_id (credentials v.token v.user_id)
