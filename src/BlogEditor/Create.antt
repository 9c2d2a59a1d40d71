-- ===== src/BlogEditor/Create.antt =====
-- frontend/src/app/manager/blog/new/page.tsx: the page on which a new post is written.
use jjudge.Prelude.{
  Bool, true, false, not, ◌&&◌, List, [], ◌∷◌, Option, none, some, Text, lit, truthy,
}
use jjudge.Async.{Task, set, call, ◌>>=◌, ◌>>◌}
use jjudge.Api.{non_empty, bearer, message}
use jjudge.BlogEditor.{Form, Field, handle_change, tags_of, Result, failed, saved, post_address}

-- `visited` logs what `router.push` was given, the last one first.
pub record Page : Type 0 where
  pub form : Form
  pub saving : Bool
  pub error : Option Text
  pub visited : List Text

-- The body of the request; a field that is `undefined` is not sent.
pub record NewPost : Type 0 where
  pub title : Text
  pub slug : Option Text
  pub excerpt : Option Text
  pub content : Text
  pub tags : List Text
  pub published : Bool

pub data Request : Type 0 where
  post_post : Text → NewPost → Request

abbrev pub Answer : Request → Type 0
Answer (post_post header p) = Result

abbrev pub Handler : Type 0
Handler = Task Request Answer Page (Unit {0})

unfoldable pub initial : Page
initial = record {
  form = record { title = []; slug = []; excerpt = []; content = []; tags = []; published = false };
  saving = false;
  error = none;
  visited = [];
}

unfoldable pub new_post : Form → Bool → NewPost
unfolding tags_of non_empty
new_post form publish = record {
  title = form.title;
  slug = non_empty form.slug;
  excerpt = non_empty form.excerpt;
  content = form.content;
  tags = tags_of form;
  published = publish;
}

unfoldable pub created : Result → Handler
unfolding message post_address
created (saved slug) = set (λ s. record s { visited = post_address slug ∷ s.visited })
created (failed e) = set (λ s. record s { error = some (message (lit "Failed to create post.") e) })

unfoldable pub handle_submit : Option Text → Form → Bool → Handler
unfolding created new_post bearer
handle_submit token form publish = do
  set (λ s. record s { saving = true })
  set (λ s. record s { error = none })
  created (← call (post_post (bearer token) (new_post form publish)))
  set (λ s. record s { saving = false })

-- What the page offers. A click on "Publish" or on "Save as draft" sets `published`, and the
-- submission of the form follows with what was set; it wants a title and a content.
pub data Event : Type 0 where
  change : Field → Text → Event
  click_submit : Bool → Event
  cancel : Event

unfoldable pub enabled : Page → Event → Bool
enabled s (click_submit publish) = not s.saving && truthy s.form.title && truthy s.form.content
enabled s _ = true

unfoldable pub handler : Option Text → Page → Event → Handler
unfolding handle_submit handle_change
handler token s (change name value) = set (λ s. record s { form = handle_change name value s.form })
handler token s (click_submit publish) = do
  set (λ s. record s { form = record s.form { published = publish } })
  handle_submit token s.form publish
handler token s cancel = set (λ s. record s { visited = lit "/manager/blog" ∷ s.visited })
