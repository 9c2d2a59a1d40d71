-- ===== src/RegisterButton/Effects.antt =====
-- frontend/src/app/contests/[id]/register-button.tsx: what the button shows after the answers.
use jjudge.Prelude.{
  ℕ, suc, ap, ◌∙◌, ◌≡◌, ◌≢◌, refl, Bool, true, false, ◌==◌, [], ◌∷◌, Option, none, some, Text, lit,
  arith, or_else,
}
use jjudge.Async.{set, await, ◌>>=◌}
use jjudge.Async.Run.{Oracle, run, is_taken}
use jjudge.Async.Schedule.{settle}
use jjudge.RegisterButton.{
  Button, Request, Handler, get_register, post_register, delete_register, Answer, settle_registered,
  checked, effect, registration, handle_register, unregistration, handle_unregister,
}

-- The state after a click that the server has answered, `taken` or not.
abbrev pub answered : Bool → Bool → Text → Button → Button
answered true b message s = record s { registered = some b; loading = false; error = none }
answered false b message s = record s { loading = false; error = some message }

handle_register_lem :
    (o : Oracle Request Answer) (s : Button) (i : ℕ) (t : Text) (a : Option (Unit {0}))
    → let out =
        run o
          (post_register i t ∷ [])
          (record s { loading = true; error = none })
          (registration a >>= λ _. set (λ s. record s { loading = false })) in
      (out.sent ≡ post_register i t ∷ [])
      × (out.state ≡ answered (is_taken a) true (lit "Failed to register. Please try again.") s)
unfolding registration
handle_register_lem o s i t none = (refl, refl)
handle_register_lem o s i t (some x) = (refl, refl)

handle_unregister_lem :
    (o : Oracle Request Answer) (s : Button) (i : ℕ) (t : Text) (a : Option (Unit {0}))
    → let out =
        run o
          (delete_register i t ∷ [])
          (record s { loading = true; error = none })
          (unregistration a >>= λ _. set (λ s. record s { loading = false })) in
      (out.sent ≡ delete_register i t ∷ [])
      × (out.state ≡ answered (is_taken a) false (lit "Failed to unregister. Please try again.") s)
unfolding unregistration
handle_unregister_lem o s i t none = (refl, refl)
handle_unregister_lem o s i t (some x) = (refl, refl)

-- A click on "Register" and one on "Unregister" send one request each. Where the server takes it, the
-- page shows the user as registered, or as not registered; where it does not, what was shown stays,
-- under a message. In both cases the buttons can be clicked again.
pub handle_register-answered :
    (o : Oracle Request Answer) (s : Button) (i : ℕ) (t : Text)
    → (let out = run o [] s (handle_register i (some t)) in
        (out.sent ≡ post_register i t ∷ [])
        × (out.state
            ≡ answered
                (is_taken (o [] (post_register i t)))
                true
                (lit "Failed to register. Please try again.")
                s))
      × (let out = run o [] s (handle_unregister i (some t)) in
          (out.sent ≡ delete_register i t ∷ [])
          × (out.state
              ≡ answered
                  (is_taken (o [] (delete_register i t)))
                  false
                  (lit "Failed to unregister. Please try again.")
                  s))
unfolding handle_register handle_unregister
handle_register-answered o s i t = (
  handle_register_lem o s i t (o [] (post_register i t)),
  handle_unregister_lem o s i t (o [] (delete_register i t)),
)

-- The state in which an effect leaves the button until its answer comes, and what is left of the effect.
abbrev pub begun : ℕ → Option Text → Button → Button × Handler
begun i t s = settle s (effect i t (suc s.current))

-- The request that a handler waits for.
abbrev pub awaited : Handler → Option Request
awaited (await r k) = some r
awaited _ = none

-- What a handler does once the server has answered the question for the registration.
abbrev pub resumed : Option Bool → Handler → Handler
resumed a (await (get_register i t) k) = k a
resumed a t = t

-- The state after the answer `a` to what is left of an effect.
abbrev pub ended : Option Bool → Handler → Button → Button
ended a t s = (settle s (resumed a t)).0

-- What is left of the effect numbered `n`.
asked : ℕ → Text → ℕ → Handler
asked i t n = await (get_register i t) (checked n)

test_yes : (m n : ℕ) → m ≡ n → (m == n) ≡ true
test_yes m n e = ground arith

test_no : (m n : ℕ) → m ≢ n → (m == n) ≡ false
test_no m n e = ground arith

ended_current :
    (i : ℕ) (t : Text) (n : ℕ) (a : Option Bool) (s : Button)
    → n ≡ s.current
    → ended a (asked i t n) s ≡ record s { registered = some (or_else a false) }
unfolding asked checked settle_registered
ended_current i t n none s e = rw (test_yes n s.current e) refl
ended_current i t n (some b) s e = rw (test_yes n s.current e) refl

ended_cancelled :
    (i : ℕ) (t : Text) (n : ℕ) (a : Option Bool) (s : Button)
    → n ≢ s.current
    → ended a (asked i t n) s ≡ s
unfolding asked checked settle_registered
ended_cancelled i t n none s e = rw (test_no n s.current e) refl
ended_cancelled i t n (some b) s e = rw (test_no n s.current e) refl

-- Where the contest or the token changes while the question of the first effect is on its way, the effect
-- runs anew with a question for the new contest, and what is left of the two effects shows the
-- answer to the last one, in whichever order the two answers come; after the user has signed out,
-- an answer that is still to come changes nothing.
pub effect-ended :
    (s : Button) (i j : ℕ) (t u : Text) (a b : Option Bool)
    → let (p, first) = begun i (some t) s in
      let (q, last) = begun j (some u) p in
      let (r, none_left) = begun j none p in
      (awaited first ≡ some (get_register i t))
      × (awaited last ≡ some (get_register j u))
      × (awaited none_left ≡ none)
      × (ended b last (ended a first q)
          ≡ record s { registered = some (or_else b false); current = q.current })
      × (ended a first (ended b last q)
          ≡ record s { registered = some (or_else b false); current = q.current })
      × (ended a first r ≡ record s { current = r.current })
unfolding effect asked
effect-ended s i j t u a b =
    let q = record s { current = suc (suc s.current) } in
    let r = record q { registered = some (or_else b false) } in
    let old : suc s.current ≢ suc (suc s.current) = λ e. absurd (omega arith) in
    let first = asked i t (suc s.current) in
    let last = asked j u (suc (suc s.current)) in
    (
      refl,
      refl,
      refl,
      ap (ended b last) (ended_cancelled i t (suc s.current) a q old)
          ∙ ended_current j u (suc (suc s.current)) b q refl,
      ap (ended a first) (ended_current j u (suc (suc s.current)) b q refl)
          ∙ ended_cancelled i t (suc s.current) a r old,
      ended_cancelled i t (suc s.current) a q old,
    )
