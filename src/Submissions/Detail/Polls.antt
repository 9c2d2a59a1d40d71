-- ===== src/Submissions/Detail/Polls.antt =====
-- frontend/src/components/submission-detail.tsx: when the component asks for the submission again.
use jjudge.Prelude.{
  ℕ, ◌≡◌, refl, Bool, true, false, not, ◌&&◌, [], Option, none, some, if◌then◌else◌, Text,
  text_eq_sound,
}
use jjudge.Async.Schedule.{Page, Keeps, KeepsFrom, Keeps-KeepsFrom, Reach, Reach-Holds}
use jjudge.Submissions.{Submission, is_pending}
use jjudge.Submissions.Polling.{Poll, rerun, Runs, rerun-Runs, mounted-Runs, cleanup-Runs}
use jjudge.Submissions.Detail.{
  Detail, Request, Answer, Handler, mount, same_verdict, set_submission, received, fetch_submission,
  toggle_row, unmount, Event, fire, leave, click_testcases, click_row, handler, Offers,
}

-- One interval runs while the component is on the page with a submission that is not judged yet, and
-- else none.
abbrev pub IsPolling : Detail → Type 0
IsPolling s = Runs (s.mounted && is_pending s.submission.verdict) s.poll

same_verdict_sound : (v w : Option Text) → same_verdict v w ≡ true → v ≡ w
unfolding same_verdict
same_verdict_sound none none h = refl
same_verdict_sound (some v) (some w) h = cc (text_eq_sound v w h)
same_verdict_sound none (some w) h = cc
same_verdict_sound (some v) none h = cc

shown-IsPolling :
    (mounted same : Bool) (fetched shown : Submission) (p : Poll)
    → (same ≡ true → fetched.verdict ≡ shown.verdict)
    → Runs (mounted && is_pending shown.verdict) p
    → Runs
        (mounted && is_pending (if mounted then fetched else shown).verdict)
        (if mounted && not same then rerun (is_pending fetched.verdict) p else p)
shown-IsPolling false same fetched shown p e h = h
shown-IsPolling true true fetched shown p e h = rw (e refl) h
shown-IsPolling true false fetched shown p e h =
    rerun-Runs (is_pending fetched.verdict) (is_pending shown.verdict) p h

set_submission-IsPolling :
    (fetched : Submission) (s : Detail) → IsPolling s → IsPolling (set_submission fetched s)
unfolding set_submission
set_submission-IsPolling fetched s h =
    shown-IsPolling s.mounted (same_verdict fetched.verdict s.submission.verdict) fetched
      s.submission s.poll (same_verdict_sound fetched.verdict s.submission.verdict) h

received-Keeps : (a : Option (Option Submission)) → Keeps IsPolling (received a)
unfolding received
received-Keeps none = tt
received-Keeps (some none) = tt
received-Keeps (some (some fetched)) = (set_submission-IsPolling fetched, tt)

unmount-IsPolling : (s : Detail) → IsPolling s → IsPolling (unmount s)
unfolding unmount
unmount-IsPolling s h = cleanup-Runs (s.mounted && is_pending s.submission.verdict) s.poll h

handler-Keeps : (id : ℕ) (e : Event) → Keeps IsPolling (handler id e)
unfolding handler fetch_submission toggle_row
handler-Keeps id fire = received-Keeps
handler-Keeps id leave = (unmount-IsPolling, tt)
handler-Keeps id click_testcases = (λ s h. h, tt)
handler-Keeps id (click_row i) = (λ s h. h, tt)

Offers-KeepsFrom :
    (id : ℕ) (s : Detail) (t : Handler) → IsPolling s → Offers id s t → KeepsFrom IsPolling s t
Offers-KeepsFrom id s t h o =
    rw o.runs (Keeps-KeepsFrom IsPolling s (handler id o.event) (handler-Keeps id o.event) h)

-- Whatever the user does, and in whatever order the answers to the requests of the intervals come,
-- the component has exactly one interval, the one that `pollRef` names, while it is on the page with
-- a submission that is pending or being judged, and it has none once a verdict is shown or it has
-- left the page.
pub Reach-IsPolling :
    (x : Submission) (q : Page Request Answer Detail)
    → Reach (Offers x.id) (record { state = mount x; tasks = [] }) q
    → IsPolling q.state
unfolding mount
Reach-IsPolling x q r =
    (Reach-Holds (Offers x.id) IsPolling (Offers-KeepsFrom x.id) _ q r
      (record { now = mounted-Runs (is_pending x.verdict); pending = tt })).now
