-- ===== src/BlogEditor/Listing.antt =====
-- frontend/src/app/manager/blog/page.tsx: the list of posts.
use jjudge.Prelude.{
  ◌++◌, ℕ, Bool, true, false, not, List, [], ◌∷◌, filter, Option, none, some, or_else, ◌==◌, Text,
  lit,
}
use jjudge.Async.{Task, set, call, done, ◌>>=◌, ◌>>◌}
use jjudge.Api.{bearer, message, Failure}

pub record Author : Type 0 where
  pub username : Text
  pub name : Text

pub record Post : Type 0 where
  pub id : ℕ
  pub title : Text
  pub slug : Text
  pub excerpt : Text
  pub published : Bool
  pub tags : List Text
  pub created_at : Text
  pub author : Author

-- `alerts` logs what `alert` was given, the last one first.
pub record Page : Type 0 where
  pub posts : List Post
  pub loading : Bool
  pub error : Option Text
  pub deleting : Option ℕ
  pub alerts : List Text

-- The list is asked for with the header of the token, or with none.
pub data Request : Type 0 where
  list_posts : Option Text → Request
  delete_post : Text → Text → Request

-- `none` where the promise of the list is rejected, or what the promise of a deletion holds where it
-- is. The list may be missing.
abbrev pub Answer : Request → Type 0
Answer (list_posts header) = Option (Option (List Post))
Answer (delete_post header slug) = Option Failure

abbrev pub Handler : Type 0
Handler = Task Request Answer Page (Unit {0})

unfoldable pub initial : Page
initial = record { posts = []; loading = true; error = none; deleting = none; alerts = [] }

-- `auth.token ? { Authorization: ... } : undefined`
header_of : Option Text → Option Text
unfolding bearer
header_of none = none
header_of (some token) = some (bearer (some token))

unfoldable pub listed : Option (Option (List Post)) → Handler
listed none = set (λ s. record s { error = some (lit "Failed to load posts.") })
listed (some items) = set (λ s. record s { posts = or_else items [] })

unfoldable pub load : Option Text → Handler
unfolding header_of listed
load token = do
  listed (← call (list_posts (header_of token)))
  set (λ s. record s { loading = false })

unfoldable pub deleted : ℕ → Option Failure → Handler
unfolding message
deleted id none = set (λ s. record s { posts = filter (λ p. not (p.id == id)) s.posts })
deleted id (some e) =
    set (λ s. record s { alerts = message (lit "Failed to delete.") e ∷ s.alerts })

-- `confirmed` is what the user answers to `confirm(...)`.
unfoldable pub handle_delete : Option Text → Text → ℕ → Bool → Handler
unfolding deleted bearer
handle_delete token slug id false = done
handle_delete token slug id true = do
  set (λ s. record s { deleting = some id })
  deleted id (← call (delete_post (bearer token) slug))
  set (λ s. record s { deleting = none })

-- The links beside a post.
unfoldable pub post_links : Post → List Text
post_links p = (lit "/blog/" ++ p.slug) ∷ (lit "/manager/blog/" ++ (p.slug ++ lit "/edit")) ∷ []
