-- ===== src/ContestManager/Submit.antt =====
-- frontend/src/app/manager/contests/page.tsx: what `handleSubmit` sends, and the state in which it
-- leaves the page, for every way in which the server may answer.
use jjudge.Prelude.{
  Bool, ℕ, ◌≡◌, refl, true, false, List, [], ◌∷◌, Option, none, some, or_else, Text, lit, take,
}
use jjudge.Async.{set, ◌>>◌}
use jjudge.Async.Run.{Oracle, Outcome, run, is_taken}
use jjudge.ContestManager.{
  Contest, Manager, Payload, Request, list_contests, post_contest, put_contest, Answer,
}
use jjudge.ContestManager.Handlers.{
  listed, load_contests, reset_form, handle_edit, payload_from, payload, save_request, saved_status,
  after_save, save, send, handle_submit,
}

-- All is left as it was but the list, its flag and the messages.
abbrev pub SameForm : Manager → Manager → Type 0
SameForm s t =
    t ≡ record s { contests = t.contests; loading = t.loading; error = t.error; status = t.status }

-- The form is as for a new contest, and no contest is edited; else all is left as it was but the list,
-- its flag and the messages.
abbrev pub IsReset : Manager → Manager → Type 0
IsReset s t = t ≡ record s {
  editing_id = none;
  title = lit "New Contest";
  description = [];
  start_time = [];
  end_time = [];
  scoring_type = lit "icpc";
  visibility = lit "public";
  contests = t.contests;
  loading = t.loading;
  error = t.error;
  status = t.status;
}

listed_lem :
    (o : Oracle Request Answer) (h : List Request) (u : Manager)
    (a : Option (Option (List Contest)))
    → let out = run o h u (listed a >> set (λ s. record s { loading = false })) in
      (out.sent ≡ h) × (out.state.status ≡ u.status) × SameForm u out.state
unfolding listed
listed_lem o h u none = (refl, refl, refl)
listed_lem o h u (some x) = (refl, refl, refl)

load_contests_lem :
    (o : Oracle Request Answer) (h : List Request) (u : Manager) (t : Text)
    → let out = run o h u (load_contests (some t)) in
      (out.sent ≡ list_contests t ∷ h) × (out.state.status ≡ u.status) × SameForm u out.state
unfolding load_contests
load_contests_lem o h u t =
    listed_lem o (list_contests t ∷ h) (record u { loading = true; error = none })
      (o h (list_contests t))

-- Whether the server takes the request that saves, as the first one of all.
abbrev pub is_saved : Oracle Request Answer → Request → Bool
is_saved o (post_contest t p) = is_taken (o [] (post_contest t p))
is_saved o (put_contest t i p) = is_taken (o [] (put_contest t i p))
is_saved o _ = false

-- What a submission that has sent the request `r` comes to, given whether that was taken: the list is
-- asked for again and the form is reset, with no message of success left; or the form is as it was,
-- with a message.
abbrev pub Ended : Bool → Text → Manager → Request → Outcome Request Manager (Unit {0}) → Type 0
Ended true t s r out =
    (out.sent ≡ list_contests t ∷ r ∷ []) × (out.state.status ≡ none) × IsReset s out.state
Ended false t s r out =
    (out.sent ≡ r ∷ [])
    × (out.state.error ≡ some (lit "Failed to save contest."))
    × (out.state.contests ≡ s.contests)
    × SameForm s out.state

abbrev pub Finished :
    Oracle Request Answer → Text → Manager → Request → Outcome Request Manager (Unit {0}) → Type 0
Finished o t s r out = Ended (is_saved o r) t s r out

after_save_lem :
    (o : Oracle Request Answer) (s : Manager) (r : Request) (t : Text) (i : Option ℕ)
    (a : Option (Unit {0}))
    → Ended
        (is_taken a)
        t
        s
        r
        (run o (r ∷ []) (record s { status = none; error = none }) (after_save (some t) i a))
unfolding after_save
after_save_lem o s r t i none = (refl, refl, refl, refl)
after_save_lem o s r t i (some x) =
    let (sent, status, same) =
      load_contests_lem o (r ∷ [])
        (reset_form (record s { status = some (saved_status i); error = none })) t in
    (sent, unfold reset_form in status, unfold reset_form in same)

save_lem :
    (o : Oracle Request Answer) (s : Manager) (t : Text) (i : Option ℕ) (p : Payload)
    → Finished o t s
        (save_request t i p)
        (run o [] (record s { status = none; error = none }) (save t i p))
unfolding save save_request
save_lem o s t none p = after_save_lem o s (post_contest t p) t none (o [] (post_contest t p))
save_lem o s t (some i) p =
    after_save_lem o s (put_contest t i p) t (some i) (o [] (put_contest t i p))

-- What a submission comes to where the payload is `p`, `none` where a time cannot be read: then
-- nothing is sent, and only the messages are gone.
abbrev pub Submitted :
    Oracle Request Answer
    → Text
    → Manager
    → Option Payload
    → Outcome Request Manager (Unit {0})
    → Type 0
Submitted o t s none out = (out.sent ≡ []) × (out.state ≡ record s { status = none; error = none })
Submitted o t s (some p) out = Finished o t s (save_request t s.editing_id p) out

send_lem :
    (o : Oracle Request Answer) (s : Manager) (t : Text) (p : Option Payload)
    → Submitted o t s p
        (run o [] (record s { status = none; error = none }) (send t s.editing_id p))
unfolding send
send_lem o s t none = (refl, refl)
send_lem o s t (some p) = save_lem o s t s.editing_id p

submit_lem :
    (iso : Text → Option Text) (o : Oracle Request Answer) (s : Manager) (t : Text)
    → Submitted o t s (payload iso s) (run o [] s (handle_submit iso (some t) s))
unfolding handle_submit
submit_lem iso o s t = send_lem o s t (payload iso s)

-- What is in the form, with its two times as they are read; `none` where one of them cannot be.
abbrev pub written : Manager → Option Text → Option Text → Option Payload
written s none b = none
written s (some a) none = none
written s (some a) (some b) = some (record {
  title = s.title;
  description = s.description;
  start_time = a;
  end_time = b;
  scoring_type = s.scoring_type;
  visibility = s.visibility;
})

payload_from-written :
    (iso : Text → Option Text) (s : Manager) (a b : Option Text)
    → payload_from iso s a b ≡ written s a b
unfolding payload_from
payload_from-written iso s none b = refl
payload_from-written iso s (some a) none = refl
payload_from-written iso s (some a) (some b) = refl

-- Whatever the server answers, a submission sends no request but the one that saves what is in the
-- form, to the contest that is edited where there is one, and after its success the one that lists
-- the contests. Where it succeeds no contest is edited any more and every field of the form is as for
-- a new one, and neither of the two messages of success is left on the page; where it fails the form
-- is as it was, under "Failed to save contest."; where a time cannot be read nothing is sent, and only
-- the messages are gone.
pub handle_submit-Submitted :
    (iso : Text → Option Text) (o : Oracle Request Answer) (s : Manager) (t : Text)
    → Submitted o t s
        (written s (iso s.start_time) (iso s.end_time))
        (run o [] s (handle_submit iso (some t) s))
unfolding payload
handle_submit-Submitted iso o s t =
    rw (payload_from-written iso s (iso s.start_time) (iso s.end_time)) at (submit_lem iso o s t)

-- What is sent for a contest whose form was not touched since its "Edit" was clicked, its two times
-- apart.
abbrev pub unchanged : Contest → Text → Text → Payload
unchanged c start_time end_time = record {
  title = c.title;
  description = or_else c.description [];
  start_time = start_time;
  end_time = end_time;
  scoring_type = c.scoring_type;
  visibility = c.visibility;
}

payload-handle_edit :
    (iso : Text → Option Text) (s : Manager) (c : Contest) (a b : Text)
    → iso (take 16 c.start_time) ≡ some a
    → iso (take 16 c.end_time) ≡ some b
    → payload iso (handle_edit c s) ≡ some (unchanged c a b)
unfolding payload handle_edit
payload-handle_edit iso s c a b p q = rw p (rw q refl)

-- A contest that is opened for editing and saved as it is goes back to the server under its own id,
-- with its own title, description, scoring and visibility, and with what `iso` makes of the first 16
-- characters of its times, where it can read these.
pub handle_edit-submit :
    (iso : Text → Option Text) (o : Oracle Request Answer) (s : Manager) (t : Text) (c : Contest)
    (a b : Text)
    → iso (take 16 c.start_time) ≡ some a
    → iso (take 16 c.end_time) ≡ some b
    → Finished o t
        (handle_edit c s)
        (put_contest t c.id (unchanged c a b))
        (run o [] (handle_edit c s) (handle_submit iso (some t) (handle_edit c s)))
unfolding handle_edit save_request
handle_edit-submit iso o s t c a b p q =
    rw (payload-handle_edit iso s c a b p q) at (submit_lem iso o (handle_edit c s) t)
