-- ===== src/Submissions/Mine/Polls.antt =====
-- frontend/src/app/problems/[id]/submissions/mine/page.tsx: when the page asks for the list again.
use jjudge.Prelude.{
  Bool, true, false, ◌&&◌, List, [], Option, none, some, or_else, if◌then◌else◌, Text, ℕ,
}
use jjudge.Async.Schedule.{Page, Keeps, KeepsFrom, Keeps-KeepsFrom, Reach, Reach-Holds}
use jjudge.Submissions.{Submission}
use jjudge.Submissions.Polling.{Poll, rerun, Runs, rerun-Runs, mounted-Runs, cleanup-Runs}
use jjudge.Submissions.Mine.{
  Problem, Mine, Session, credentials, Request, Answer, Handler, has_pending, mount,
  set_submissions, polled, fetch_for, fetch_submissions, loaded, load_for, load, unmount, Event,
  arrive, fire, leave, handler, Offers,
}

-- One interval runs while the page shows a submission that is not judged yet, and else none.
abbrev pub IsListPolling : Mine → Type 0
IsListPolling s = Runs (s.mounted && has_pending s.submissions) s.poll

shown-IsListPolling :
    (mounted : Bool) (xs : List Submission) (shown : Option (List Submission)) (p : Poll)
    → Runs (mounted && has_pending shown) p
    → Runs
        (mounted && has_pending (if mounted then some xs else shown))
        (if mounted then rerun (has_pending (some xs)) p else p)
shown-IsListPolling false xs shown p h = h
shown-IsListPolling true xs shown p h = rerun-Runs (has_pending (some xs)) (has_pending shown) p h

set_submissions-IsListPolling :
    (xs : List Submission) (s : Mine) → IsListPolling s → IsListPolling (set_submissions xs s)
unfolding set_submissions
set_submissions-IsListPolling xs s h = shown-IsListPolling s.mounted xs s.submissions s.poll h

polled-Keeps : (a : Option (Option (List Submission))) → Keeps IsListPolling (polled a)
unfolding polled
polled-Keeps none = tt
polled-Keeps (some xs) = (set_submissions-IsListPolling (or_else xs []), (λ s h. h, tt))

loaded-Keeps :
    (a : Option (Option Problem × Option (List Submission))) → Keeps IsListPolling (loaded a)
unfolding loaded
loaded-Keeps none = (λ s h. h, (λ s h. h, tt))
loaded-Keeps (some (problem, xs)) =
    (λ s h. h, (set_submissions-IsListPolling (or_else xs []), (λ s h. h, (λ s h. h, tt))))

fetch_for-Keeps :
    (problem_id : Option Text) (c : Option (Text × ℕ))
    → Keeps IsListPolling (fetch_for problem_id c)
unfolding fetch_for
fetch_for-Keeps none c = tt
fetch_for-Keeps (some problem_id) none = tt
fetch_for-Keeps (some problem_id) (some (token, user_id)) = polled-Keeps

load_for-Keeps :
    (problem_id : Option Text) (c : Option (Text × ℕ)) → Keeps IsListPolling (load_for problem_id c)
unfolding load_for
load_for-Keeps none c = tt
load_for-Keeps (some problem_id) none = (λ s h. h, (λ s h. h, tt))
load_for-Keeps (some problem_id) (some (token, user_id)) = loaded-Keeps

handler-Keeps : (v : Session) (e : Event) → Keeps IsListPolling (handler v e)
unfolding handler load fetch_submissions unmount
handler-Keeps v arrive = load_for-Keeps v.problem_id (credentials v.token v.user_id)
handler-Keeps v fire = fetch_for-Keeps v.problem_id (credentials v.token v.user_id)
handler-Keeps v leave = (λ s h. cleanup-Runs (s.mounted && has_pending s.submissions) s.poll h, tt)

Offers-KeepsFrom :
    (v : Session) (s : Mine) (t : Handler)
    → IsListPolling s
    → Offers v s t
    → KeepsFrom IsListPolling s t
Offers-KeepsFrom v s t h o =
    rw o.runs (Keeps-KeepsFrom IsListPolling s (handler v o.event) (handler-Keeps v o.event) h)

-- In whatever order the answers to the loading and to the polling come, the page has exactly one
-- interval, the one that `pollRef` names, while it is there with a submission that is pending or being
-- judged among those shown, and it has none before the first list, once all are judged, and after the
-- page is left.
pub Reach-IsListPolling :
    (v : Session) (q : Page Request Answer Mine)
    → Reach (Offers v) (record { state = mount; tasks = [] }) q
    → IsListPolling q.state
unfolding mount has_pending
Reach-IsListPolling v q r =
    (Reach-Holds (Offers v) IsListPolling (Offers-KeepsFrom v) _ q r
      (record { now = mounted-Runs false; pending = tt })).now
