-- ===== src/Submissions/Polling.antt =====
-- The effect that both pages share: `pollRef`, and the intervals that run in the browser.
use jjudge.Prelude.{
  ℕ, suc, ◌≡◌, refl, Bool, true, false, not, List, [], ◌∷◌, Option, none, some, if◌then◌else◌,
  filter, ◌==◌, arith,
}

pub record Poll : Type 0 where
  pub poll_ref : Option ℕ
  pub running : List ℕ
  pub next_id : ℕ

abbrev pub no_poll : Poll
no_poll = record { poll_ref = none; running = []; next_id = 1 }

-- `pollRef.current = setInterval(...)`
unfoldable pub set_interval : Poll → Poll
set_interval p = record {
  poll_ref = some p.next_id;
  running = p.next_id ∷ p.running;
  next_id = suc p.next_id;
}

clear_interval : Option ℕ → Poll → Poll
clear_interval none p = p
clear_interval (some i) p = record p {
  poll_ref = none;
  running = filter (λ j. not (j == i)) p.running;
}

-- The function that the effect returns.
unfoldable pub cleanup : Poll → Poll
unfolding clear_interval
cleanup p = clear_interval p.poll_ref p

-- The effect's body.
unfoldable pub effect : Bool → Poll → Poll
unfolding set_interval clear_interval
effect pending p = if pending then set_interval p else clear_interval p.poll_ref p

-- Where a dependency has changed, React runs the one and then the other.
unfoldable pub rerun : Bool → Poll → Poll
unfolding cleanup effect
rerun pending p = effect pending (cleanup p)

-- One interval runs and `pollRef` has its id, or none runs.
abbrev pub Runs : Bool → Poll → Type 0
Runs true p = (i : ℕ) × (p.poll_ref ≡ some i) × (p.running ≡ i ∷ [])
Runs false p = (p.poll_ref ≡ none) × (p.running ≡ [])

idle-clear_interval :
    (r : Option ℕ) (p : Poll) → r ≡ none → Runs false p → Runs false (clear_interval r p)
unfolding clear_interval
idle-clear_interval none p e h = h
idle-clear_interval (some i) p e h = cc

polled-clear_interval :
    (r : Option ℕ) (p : Poll) (i : ℕ)
    → r ≡ some i
    → p.running ≡ i ∷ []
    → Runs false (clear_interval r p)
unfolding clear_interval
polled-clear_interval none p i e h = cc
polled-clear_interval (some j) p i e h = (refl, rw h (ground arith))

clear_interval-Runs : (b : Bool) (p : Poll) → Runs b p → Runs false (clear_interval p.poll_ref p)
clear_interval-Runs false p (e, h) = idle-clear_interval p.poll_ref p e (e, h)
clear_interval-Runs true p (i, e, h) = polled-clear_interval p.poll_ref p i e h

pub cleanup-Runs : (b : Bool) (p : Poll) → Runs b p → Runs false (cleanup p)
unfolding cleanup
cleanup-Runs = clear_interval-Runs

effect-Runs : (b : Bool) (p : Poll) → Runs false p → Runs b (effect b p)
unfolding effect set_interval
effect-Runs true p (e, h) = (p.next_id, refl, rw h refl)
effect-Runs false p h = clear_interval-Runs false p h

pub rerun-Runs : (b c : Bool) (p : Poll) → Runs c p → Runs b (rerun b p)
unfolding rerun
rerun-Runs b c p h = effect-Runs b (cleanup p) (cleanup-Runs c p h)

pub mounted-Runs : (b : Bool) → Runs b (effect b no_poll)
mounted-Runs b = effect-Runs b no_poll (refl, refl)
