-- ===== src/RegisterButton.antt =====
-- frontend/src/app/contests/[id]/register-button.tsx: the button that registers for a contest, its
-- state, its effect and its two handlers.
pub mod Effects
mod Tests
use jjudge.Prelude.{
  ℕ, suc, ◌≡◌, Bool, true, false, not, ◌&&◌, ◌==◌, List, [], ◌∷◌, Option, none, some, if◌then◌else◌,
  Text, lit,
}
use jjudge.Async.{Task, ret, done, set, call, ◌>>=◌, ◌>>◌}

-- `current` is the number of the effect that is not cancelled: each effect has a variable `cancelled`
-- of its own, which its cleanup sets.
pub record Button : Type 0 where
  pub loading : Bool
  pub registered : Option Bool
  pub error : Option Text
  pub current : ℕ

pub data Request : Type 0 where
  get_register post_register delete_register : ℕ → Text → Request

-- `none` where the promise is rejected.
abbrev pub Answer : Request → Type 0
Answer (get_register contest_id token) = Option Bool
Answer (post_register contest_id token) = Option (Unit {0})
Answer (delete_register contest_id token) = Option (Unit {0})

abbrev pub Handler : Type 0
Handler = Task Request Answer Button (Unit {0})

unfoldable pub initial : Button
initial = record { loading = false; registered = none; error = none; current = 0 }

-- The effect's two callbacks, where the effect is the one numbered `n`.
unfoldable pub settle_registered : ℕ → Bool → Button → Button
settle_registered n b s = record s { registered = if n == s.current then some b else s.registered }

unfoldable pub checked : ℕ → Option Bool → Handler
unfolding settle_registered
checked n none = set (settle_registered n false)
checked n (some b) = set (settle_registered n b)

-- The cleanup of the effect before, and the effect.
unfoldable pub effect : ℕ → Option Text → ℕ → Handler
unfolding checked
effect contest_id none n = set (λ s. record s { current = suc s.current })
effect contest_id (some token) n = do
  set (λ s. record s { current = suc s.current })
  checked n (← call (get_register contest_id token))

unfoldable pub registration : Option (Unit {0}) → Handler
registration none =
    set (λ s. record s { error = some (lit "Failed to register. Please try again.") })
registration (some _) = set (λ s. record s { registered = some true })

unfoldable pub handle_register : ℕ → Option Text → Handler
unfolding registration
handle_register contest_id none = done
handle_register contest_id (some token) = do
  set (λ s. record s { loading = true })
  set (λ s. record s { error = none })
  registration (← call (post_register contest_id token))
  set (λ s. record s { loading = false })

unfoldable pub unregistration : Option (Unit {0}) → Handler
unregistration none =
    set (λ s. record s { error = some (lit "Failed to unregister. Please try again.") })
unregistration (some _) = set (λ s. record s { registered = some false })

unfoldable pub handle_unregister : ℕ → Option Text → Handler
unfolding unregistration
handle_unregister contest_id none = done
handle_unregister contest_id (some token) = do
  set (λ s. record s { loading = true })
  set (λ s. record s { error = none })
  unregistration (← call (delete_register contest_id token))
  set (λ s. record s { loading = false })

-- What is rendered.
pub data View : Type 0 where
  log_in placeholder : View
  unregister_button register_button : Bool → View

shown : Option Bool → Bool → View
shown none loading = placeholder
shown (some true) loading = unregister_button (not loading)
shown (some false) loading = register_button (not loading)

unfoldable pub view : Option Text → Button → View
unfolding shown
view none s = log_in
view (some token) s = shown s.registered s.loading

-- The link of the view `log_in`.
abbrev pub log_in_link : Text
log_in_link = lit "/login"
