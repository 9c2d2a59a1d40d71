-- ===== src/ContestDetail/Update.antt =====
-- frontend/src/app/manager/contests/[id]/page.tsx: what an update comes to, and what the page then
-- shows.
use jjudge.Prelude.{
  ℕ, ◌≡◌, refl, ap, ◌∙◌, Bool, true, false, List, [], ◌∷◌, Option, none, some, Text, lit,
}
use jjudge.Async.{set, ◌>>◌}
use jjudge.Async.Run.{Oracle, Outcome, run, is_taken}
use jjudge.ContestDetail.{
  Contest, Detail, Payload, Request, get_contest, put_contest, Answer, fill, found, load_contest,
  payload, updated, send, handle_update, message, page, view, loading_view, loaded_view,
}

-- The page after it has asked for the contest.
abbrev pub read : Option Contest → Detail → Detail
read none s = record s { loading = false; error = some (lit "Failed to load contest.") }
read (some c) s = record (fill c s) { loading = false; error = none }

found_lem :
    (o : Oracle Request Answer) (h : List Request) (s : Detail) (a : Option Contest)
    → let out =
        run o h
          (record s { loading = true; error = none })
          (found a >> set (λ s. record s { loading = false })) in
      (out.sent ≡ h) × (out.state ≡ read a s)
unfolding found fill
found_lem o h s none = (refl, refl)
found_lem o h s (some c) = (refl, refl)

load_contest_lem :
    (o : Oracle Request Answer) (h : List Request) (s : Detail) (t : Text) (i : ℕ)
    → let out = run o h s (load_contest (some t) (some i)) in
      (out.sent ≡ get_contest t i ∷ h) × (out.state ≡ read (o h (get_contest t i)) s)
unfolding load_contest
load_contest_lem o h s t i = found_lem o (get_contest t i ∷ h) s (o h (get_contest t i))

-- The page after an update that was not taken: all is kept but the messages, and the page gives way
-- to the message.
abbrev pub Lost : Text → Detail → Detail → Type 0
Lost t s u =
    (u ≡ record s { status = none; error = some (lit "Failed to update contest.") })
    × (s.loading ≡ false → view (some t) u ≡ message (lit "Failed to update contest."))

-- What an update comes to, given whether the request is taken.
abbrev pub Ended :
    Bool
    → Oracle Request Answer
    → Text
    → ℕ
    → Payload
    → Detail
    → Outcome Request Detail (Unit {0})
    → Type 0
Ended false o t i p s out = (out.sent ≡ put_contest t i p ∷ []) × Lost t s out.state
Ended true o t i p s out =
    let h = put_contest t i p ∷ [] in
    let u = record s { status = some (lit "Contest updated."); error = none; editing = false } in
    (out.sent ≡ get_contest t i ∷ h)
    × (out.state ≡ read (o h (get_contest t i)) u)
    × ((c : Contest) → o h (get_contest t i) ≡ some c → view (some t) out.state ≡ page c)

-- And given the payload, `none` where a time cannot be read.
abbrev pub Updated :
    Option Payload
    → Oracle Request Answer
    → Text
    → ℕ
    → Detail
    → Outcome Request Detail (Unit {0})
    → Type 0
Updated none o t i s out = (out.sent ≡ []) × Lost t s out.state
Updated (some p) o t i s out = Ended (is_taken (o [] (put_contest t i p))) o t i p s out

lost_lem :
    (t : Text) (s : Detail)
    → Lost t s (record s { status = none; error = some (lit "Failed to update contest.") })
unfolding view loading_view loaded_view
lost_lem t s = (refl, λ e. rw e refl)

read-view : (t : Text) (c : Contest) (s : Detail) → view (some t) (read (some c) s) ≡ page c
unfolding view fill loading_view loaded_view
read-view t c s = refl

updated_lem :
    (o : Oracle Request Answer) (s : Detail) (t : Text) (i : ℕ) (p : Payload)
    (a : Option (Unit {0}))
    → Ended
        (is_taken a)
        o
        t
        i
        p
        s
        (run o (put_contest t i p ∷ []) (record s { status = none; error = none }) (updated t i a))
unfolding updated
updated_lem o s t i p none = (refl, lost_lem t s)
updated_lem o s t i p (some x) =
    let h = put_contest t i p ∷ [] in
    let u = record s { status = some (lit "Contest updated."); error = none; editing = false } in
    let (sent, state) = load_contest_lem o h u t i in
    (sent, state, λ c e. ap (view (some t)) (state ∙ ap (λ a. read a u) e) ∙ read-view t c u)

send_lem :
    (o : Oracle Request Answer) (s : Detail) (t : Text) (i : ℕ) (p : Option Payload)
    → Updated p o t i s (run o [] (record s { status = none; error = none }) (send t i p))
unfolding send
send_lem o s t i none = (refl, lost_lem t s)
send_lem o s t i (some p) = updated_lem o s t i p (o [] (put_contest t i p))

-- An update whose times can be read is sent once, for the contest of the page. Where it is taken the
-- form closes, the contest is asked for again, and the page shows it as the server answers. Where it is
-- refused, or a time cannot be read and nothing is sent, what was typed is kept, but the page with its
-- form gives way to the message.
pub handle_update-Updated :
    (iso : Text → Option Text) (o : Oracle Request Answer) (s : Detail) (t : Text) (i : ℕ)
    → Updated (payload iso s) o t i s (run o [] s (handle_update iso (some t) i s))
unfolding handle_update
handle_update-Updated iso o s t i = send_lem o s t i (payload iso s)
