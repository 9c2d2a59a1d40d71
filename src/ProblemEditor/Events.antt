-- ===== src/ProblemEditor/Events.antt =====
-- frontend/src/app/manager/problems/page.tsx, lines 151 to 154 and 325 to 644: what the rendered
-- page offers, when, and which handler it runs.
use jjudge.Prelude.{
  ℕ, Bool, true, false, ◌&&◌, ◌≡◌, Option, none, some, length, any, ltb, ◌==◌, Text, List,
}
use jjudge.Async.{set}
use jjudge.ProblemEditor.{
  Problem, TestcaseGroup, Visibility, UploadMode, individual, zip, File, Editor, Handler,
}
use jjudge.ProblemEditor.Groups.{
  update_group, update_testcase, add_group, remove_group, add_testcase, remove_testcase,
}
use jjudge.ProblemEditor.Handlers.{AuthToken, load_problems, reset_form, handle_edit, handle_submit}

pub data Event : Type 0 where
  mount submit cancel click_add_group : Event
  edit : Problem → Event
  type_title type_description type_tags : Text → Event
  type_difficulty type_time_limit type_memory_limit : ℕ → Event
  choose_visibility : Visibility → Event
  choose_mode : UploadMode → Event
  choose_zip : Option File → Event
  type_group_name : ℕ → Text → Event
  type_points : ℕ → ℕ → Event
  click_remove_group click_add_testcase : ℕ → Event
  click_remove_testcase : ℕ → ℕ → Event
  choose_input choose_output : ℕ → ℕ → Option File → Event

has_token : AuthToken → Bool
has_token none = false
has_token (some t) = true

is_editing : Option ℕ → Bool
is_editing none = false
is_editing (some i) = true

is_individual : UploadMode → Bool
is_individual individual = true
is_individual zip = false

is_zip : UploadMode → Bool
is_zip individual = false
is_zip zip = true

-- The group is shown, and has more than one testcase.
several_testcases : ℕ → List TestcaseGroup → Bool
several_testcases group_id = any (λ g. g.id == group_id && ltb 1 (length g.testcases))

-- The problem is in the list, with its button.
unfoldable pub shown : Problem → List Problem → Bool
shown p = any (λ x. x.id == p.id)

-- Whether the button, the input or the form is there and enabled.
unfoldable pub enabled : AuthToken → Editor → Event → Bool
unfolding has_token is_editing is_individual shown is_zip several_testcases
enabled token s submit = has_token token
enabled token s (edit p) = shown p s.problems
enabled token s cancel = is_editing s.editing_id
enabled token s (choose_zip f) = is_zip s.upload_mode
enabled token s (click_remove_group g) = ltb 1 (length s.groups)
enabled token s (click_add_testcase g) = is_individual s.upload_mode
enabled token s (click_remove_testcase g t) =
    is_individual s.upload_mode && several_testcases g s.groups
enabled token s (choose_input g t f) = is_individual s.upload_mode
enabled token s (choose_output g t f) = is_individual s.upload_mode
enabled token s _ = true

-- What the events do that only change the form.
unfoldable pub change : Event → Editor → Editor
change cancel = reset_form
change click_add_group = add_group
change (type_title x) = λ s. record s { title = x }
change (type_description x) = λ s. record s { description = x }
change (type_tags x) = λ s. record s { tags = x }
change (type_difficulty x) = λ s. record s { difficulty = x }
change (type_time_limit x) = λ s. record s { time_limit = x }
change (type_memory_limit x) = λ s. record s { memory_limit = x }
change (choose_visibility x) = λ s. record s { visibility = x }
change (choose_mode x) = λ s. record s { upload_mode = x }
change (choose_zip f) = λ s. record s { zip_file = f }
change (type_group_name g x) = update_group g (λ c. record c { name = x })
change (type_points g x) = update_group g (λ c. record c { points = x })
change (click_remove_group g) = remove_group g
change (click_add_testcase g) = add_testcase g
change (click_remove_testcase g t) = remove_testcase g t
change (choose_input g t f) = update_testcase g t (λ c. record c { in_file = f })
change (choose_output g t f) = update_testcase g t (λ c. record c { out_file = f })
change mount = λ s. s
change submit = λ s. s
change (edit p) = λ s. s

-- What an event runs.
unfoldable pub handler : AuthToken → Editor → Event → Handler
unfolding change
handler token s mount = load_problems token
handler token s submit = handle_submit token s
handler token s (edit p) = handle_edit token p
handler token s e = set (change e)

-- The events of a page that has the token.
pub record Offers (token : AuthToken) (s : Editor) (t : Handler) : Type 0 where
  pub event : Event
  pub is_enabled : enabled token s event ≡ true
  pub runs : t ≡ handler token s event
