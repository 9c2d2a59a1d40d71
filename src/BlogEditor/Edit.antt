-- ===== src/BlogEditor/Edit.antt =====
-- frontend/src/app/manager/blog/[slug]/edit/page.tsx: the page on which a post is edited. `slug` is
-- the one in the page's address.
use jjudge.Prelude.{
  Bool, true, false, List, [], ◌∷◌, Option, none, some, or_else, if◌then◌else◌, Text, lit, text_eq,
  join,
}
use jjudge.Async.{Task, set, call, done, ◌>>=◌, ◌>>◌}
use jjudge.Api.{non_empty, bearer, message}
use jjudge.BlogEditor.{Form, tags_of, Result, failed, saved, post_address}

-- What the server sends; the code allows for two missing fields.
pub record Post : Type 0 where
  pub title : Text
  pub slug : Text
  pub excerpt : Option Text
  pub content : Text
  pub tags : Option (List Text)
  pub published : Bool

pub record Page : Type 0 where
  pub form : Form
  pub loading : Bool
  pub saving : Bool
  pub error : Option Text
  pub visited : List Text

-- The body of the request. A slug that is not changed is not sent; an empty excerpt is sent as null,
-- which is `none` here.
pub record PostUpdate : Type 0 where
  pub title : Text
  pub slug : Option Text
  pub excerpt : Option Text
  pub content : Text
  pub tags : List Text
  pub published : Bool

pub data Request : Type 0 where
  get_post : Text → Text → Request
  patch_post : Text → Text → PostUpdate → Request

abbrev pub Answer : Request → Type 0
Answer (get_post header slug) = Option Post
Answer (patch_post header slug p) = Result

abbrev pub Handler : Type 0
Handler = Task Request Answer Page (Unit {0})

unfoldable pub initial : Page
initial = record {
  form = record { title = []; slug = []; excerpt = []; content = []; tags = []; published = false };
  loading = true;
  saving = false;
  error = none;
  visited = [];
}

unfoldable pub join_tags : Option (List Text) → Text
join_tags none = []
join_tags (some tags) = join (lit ", ") tags

unfoldable pub form_of : Post → Form
unfolding join_tags
form_of p = record {
  title = p.title;
  slug = p.slug;
  excerpt = or_else p.excerpt [];
  content = p.content;
  tags = join_tags p.tags;
  published = p.published;
}

unfoldable pub found : Option Post → Handler
unfolding form_of
found none = set (λ s. record s { error = some (lit "Failed to load post.") })
found (some p) = set (λ s. record s { form = form_of p })

-- The effect. Without a token the page stays as it is, which is loading.
unfoldable pub load : Option Text → Text → Handler
unfolding found bearer
load none slug = done
load (some token) slug = do
  found (← call (get_post (bearer (some token)) slug))
  set (λ s. record s { loading = false })

-- `form.slug !== params.slug ? form.slug : undefined`
unfoldable pub changed_slug : Text → Text → Option Text
changed_slug new slug = if text_eq new slug then none else some new

unfoldable pub post_update : Text → Form → Bool → PostUpdate
unfolding changed_slug non_empty tags_of
post_update slug form published = record {
  title = form.title;
  slug = changed_slug form.slug slug;
  excerpt = non_empty form.excerpt;
  content = form.content;
  tags = tags_of form;
  published = published;
}

unfoldable pub updated : Result → Handler
unfolding message post_address
updated (saved slug) = set (λ s. record s { visited = post_address slug ∷ s.visited })
updated (failed e) = set (λ s. record s { error = some (message (lit "Failed to save.") e) })

unfoldable pub handle_submit : Option Text → Text → Form → Bool → Handler
unfolding updated post_update bearer
handle_submit token slug form published = do
  set (λ s. record s { saving = true })
  set (λ s. record s { error = none })
  updated (← call (patch_post (bearer token) slug (post_update slug form published)))
  set (λ s. record s { saving = false })
