-- ===== src/Submissions/Detail.antt =====
-- frontend/src/components/submission-detail.tsx: the component's state and what it does, with the
-- effects that React runs after a change.
pub mod Polls
use jjudge.Prelude.{
  ℕ, ◌≡◌, refl, Bool, true, false, not, ◌&&◌, List, [], ◌∷◌, ◌++◌, Option, none, some, any, filter,
  if◌then◌else◌, ◌==◌, arith, Text, text_eq, Bool-cases, ◌⊎◌, inl, inr, text_eq_sound,
}
use jjudge.Async.{Task, done, set, call, ◌>>=◌}
use jjudge.Async.Schedule.{Page, Keeps, KeepsFrom, Keeps-KeepsFrom, Reach, Reach-Holds}
use jjudge.Submissions.{Submission, is_pending}
use jjudge.Submissions.Polling.{
  Poll, no_poll, effect, rerun, cleanup, Runs, rerun-Runs, mounted-Runs, cleanup-Runs,
}

pub record Detail : Type 0 where
  pub submission : Submission
  pub poll : Poll
  pub mounted : Bool
  pub tc_expanded : Bool
  pub expanded_rows : List ℕ

pub data Request : Type 0 where
  get_submission : ℕ → Request

-- `none` where the promise is rejected; the body may be missing.
abbrev pub Answer : Request → Type 0
Answer (get_submission i) = Option (Option Submission)

abbrev pub Handler : Type 0
Handler = Task Request Answer Detail (Unit {0})

-- The component is rendered and its effect has run.
unfoldable pub mount : Submission → Detail
mount s = record {
  submission = s;
  poll = effect (is_pending s.verdict) no_poll;
  mounted = true;
  tc_expanded = false;
  expanded_rows = [];
}

same_verdict : Option Text → Option Text → Bool
same_verdict none none = true
same_verdict (some v) (some w) = text_eq v w
same_verdict _ _ = false

-- `setSubmission(fetched)`, and the effect where its dependency, the verdict, has changed. Nothing
-- happens on a component that is gone.
unfoldable pub set_submission : Submission → Detail → Detail
unfolding same_verdict
set_submission fetched s = record s {
  submission = if s.mounted then fetched else s.submission;
  poll =
      if s.mounted && not (same_verdict fetched.verdict s.submission.verdict)
      then rerun (is_pending fetched.verdict) s.poll
      else s.poll;
}

unfoldable pub received : Option (Option Submission) → Handler
received none = done
received (some none) = done
received (some (some fetched)) = set (set_submission fetched)

unfoldable pub fetch_submission : ℕ → Handler
unfolding received
fetch_submission id = call (get_submission id) >>= received

unfoldable pub toggle_row : ℕ → Detail → Detail
toggle_row i s = record s {
  expanded_rows =
      if any (λ j. j == i) s.expanded_rows
      then filter (λ j. not (j == i)) s.expanded_rows
      else s.expanded_rows ++ i ∷ [];
}

unfoldable pub unmount : Detail → Detail
unmount s = record s { poll = cleanup s.poll; mounted = false }

-- What can happen: an interval fires, for the submission that the component was made for; the user
-- clicks; the component is taken from the page.
pub data Event : Type 0 where
  fire leave click_testcases : Event
  click_row : ℕ → Event

is_empty : List ℕ → Bool
is_empty [] = true
is_empty (i ∷ is) = false

unfoldable pub enabled : Detail → Event → Bool
unfolding is_empty
enabled s fire = not (is_empty s.poll.running)
enabled s leave = s.mounted
enabled s click_testcases = s.mounted
enabled s (click_row i) = s.mounted && s.tc_expanded

unfoldable pub handler : ℕ → Event → Handler
handler id fire = fetch_submission id
handler id leave = set unmount
handler id click_testcases = set (λ s. record s { tc_expanded = not s.tc_expanded })
handler id (click_row i) = set (toggle_row i)

pub record Offers (id : ℕ) (s : Detail) (t : Handler) : Type 0 where
  pub event : Event
  pub is_enabled : enabled s event ≡ true
  pub runs : t ≡ handler id event
