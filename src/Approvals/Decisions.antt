-- ===== src/Approvals/Decisions.antt =====
-- frontend/src/app/admin/approvals/page.tsx: what a decision comes to, for every way in which the
-- server may answer.
use jjudge.Prelude.{
  Bool, ℕ, ◌≡◌, refl, true, false, List, [], ◌∷◌, Option, none, some, or_else, Text, lit,
}
use jjudge.Async.Run.{Oracle, Outcome, run, is_taken}
use jjudge.Async.{set, ◌>>◌}
use jjudge.Approvals.{
  Problem, Contest, Approvals, Subject, problem, contest, Decision, approve, reject, Request,
  get_pending, post_decision, Answer, listed, load_pending, decided_status, failed_error, decided,
  decide, approve_problem, reject_problem, approve_contest, reject_contest,
}

-- The page after it has asked for its queues: it shows those of the answer, or keeps those that it
-- has under a message.
abbrev pub shown : Option (Option (List Problem) × Option (List Contest)) → Approvals → Approvals
shown none s = record s { loading = false; error = some (lit "Failed to load pending approvals.") }
shown (some (problems, contests)) s = record s {
  problems = or_else problems [];
  contests = or_else contests [];
  loading = false;
  error = none;
}

listed_lem :
    (o : Oracle Request Answer) (h : List Request) (s : Approvals)
    (a : Option (Option (List Problem) × Option (List Contest)))
    → let out =
        run o h
          (record s { loading = true; error = none })
          (listed a >> set (λ s. record s { loading = false })) in
      (out.sent ≡ h) × (out.state ≡ shown a s)
unfolding listed
listed_lem o h s none = (refl, refl)
listed_lem o h s (some (problems, contests)) = (refl, refl)

load_pending_lem :
    (o : Oracle Request Answer) (h : List Request) (s : Approvals) (t : Text)
    → let out = run o h s (load_pending (some t)) in
      (out.sent ≡ get_pending t ∷ h) × (out.state ≡ shown (o h (get_pending t)) s)
unfolding load_pending
load_pending_lem o h s t = listed_lem o (get_pending t ∷ h) s (o h (get_pending t))

-- What a decision comes to, given the answer to it. It is taken: the queues are asked for again,
-- after it, and the message names it. It failed: the queues stay, and nothing more is asked.
abbrev pub Ended :
    Bool
    → Oracle Request Answer
    → Text
    → Subject
    → Decision
    → ℕ
    → Approvals
    → Outcome Request Approvals (Unit {0})
    → Type 0
Ended true o t x d i s out =
    let h = post_decision t x i d ∷ [] in
    (out.sent ≡ get_pending t ∷ h)
    × (out.state ≡ shown (o h (get_pending t)) (record s { status = some (decided_status x i d) }))
Ended false o t x d i s out =
    (out.sent ≡ post_decision t x i d ∷ [])
    × (out.state ≡ record s { status = none; error = some (failed_error x d) })

abbrev pub Decided :
    Oracle Request Answer
    → Text
    → Subject
    → Decision
    → ℕ
    → Approvals
    → Outcome Request Approvals (Unit {0})
    → Type 0
Decided o t x d i s out = Ended (is_taken (o [] (post_decision t x i d))) o t x d i s out

decided_lem :
    (o : Oracle Request Answer) (s : Approvals) (t : Text) (x : Subject) (d : Decision) (i : ℕ)
    (a : Option (Unit {0}))
    → Ended
        (is_taken a)
        o
        t
        x
        d
        i
        s
        (run o (post_decision t x i d ∷ []) (record s { status = none }) (decided t x i d a))
unfolding decided
decided_lem o s t x d i none = (refl, refl)
decided_lem o s t x d i (some _) =
    load_pending_lem o (post_decision t x i d ∷ [])
      (record s { status = some (decided_status x i d) }) t

decide_lem :
    (o : Oracle Request Answer) (s : Approvals) (t : Text) (x : Subject) (d : Decision) (i : ℕ)
    → Decided o t x d i s (run o [] s (decide x d (some t) i))
unfolding decide
decide_lem o s t x d i = decided_lem o s t x d i (o [] (post_decision t x i d))

-- Whatever the server answers, each of the four buttons sends its own decision on its own item once;
-- where that is taken, the message names it, and the queues are asked for after it and shown as they
-- come, or kept under the message of a failure; where it is refused the queues stay as they are.
pub approve_problem-Decided :
    (o : Oracle Request Answer) (s : Approvals) (t : Text) (i : ℕ)
    → Decided o t problem approve i s (run o [] s (approve_problem (some t) i))
      × Decided o t problem reject i s (run o [] s (reject_problem (some t) i))
      × Decided o t contest approve i s (run o [] s (approve_contest (some t) i))
      × Decided o t contest reject i s (run o [] s (reject_contest (some t) i))
unfolding approve_problem reject_problem approve_contest reject_contest
approve_problem-Decided o s t i = (
  decide_lem o s t problem approve i,
  decide_lem o s t problem reject i,
  decide_lem o s t contest approve i,
  decide_lem o s t contest reject i,
)
