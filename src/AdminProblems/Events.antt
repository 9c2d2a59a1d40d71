-- ===== src/AdminProblems/Events.antt =====
-- frontend/src/app/admin/problems/page.tsx, lines 147 to 150 and 343 to 669: what the rendered page
-- offers, and which handler it runs. The form is offered as on the page of managers.
use jjudge.Prelude.{ℕ, Bool, true, ◌≡◌, List, any, ◌==◌}
use jjudge.Async.{set}
use jjudge.ProblemEditor.{Problem, Editor}
use jjudge.ProblemEditor.Handlers.{AuthToken}
use jjudge.ProblemEditor.Events as Form
use jjudge.AdminProblems.{Handler}
use jjudge.AdminProblems.Handlers.{load_problems, handle_edit, handle_delete, handle_submit}

-- A click on "DEL" comes with the answer to the question that follows.
pub data Event : Type 0 where
  form : Form.Event → Event
  click_delete : ℕ → Bool → Event

is_listed : ℕ → List Problem → Bool
is_listed id = any (λ p. p.id == id)

unfoldable pub enabled : AuthToken → Editor → Event → Bool
unfolding is_listed
enabled token s (form e) = Form.enabled token s e
enabled token s (click_delete id confirmed) = is_listed id s.problems

unfoldable pub handler : AuthToken → Editor → Event → Handler
handler token s (form Form.mount) = load_problems token
handler token s (form Form.submit) = handle_submit token s
handler token s (form (Form.edit p)) = handle_edit token p
handler token s (form e) = set (Form.change e)
handler token s (click_delete id confirmed) = handle_delete token s id confirmed

pub record Offers (token : AuthToken) (s : Editor) (t : Handler) : Type 0 where
  pub event : Event
  pub is_enabled : enabled token s event ≡ true
  pub runs : t ≡ handler token s event
