-- ===== src/Blog.antt =====
-- frontend/src/app/blog/page.tsx and frontend/src/app/blog/[slug]/page.tsx: the public list of posts and the
-- page of a post, as the server renders them. Dates are left out.
pub mod Numbers
mod Tests
use jjudge.Prelude.{
  ℕ, ◌-◌, ◌++◌, Bool, not, List, [], ◌∷◌, map_from, Option, none, some, or_else, length, take, Text,
  lit, to_string, pad_start,
}
use jjudge.Submissions.Results.{shown_text}

pub record Author : Type 0 where
  pub username : Text
  pub name : Text

-- A post of the list; `author` and `tags` may be missing from an answer.
pub record Post : Type 0 where
  pub id : ℕ
  pub title : Text
  pub slug : Text
  pub excerpt : Text
  pub author : Option Author
  pub published : Bool
  pub tags : Option (List Text)

-- `author?.username` within an address.
unfoldable pub username_of : Option Author → Text
username_of none = lit "undefined"
username_of (some a) = a.username

name_or : Text → Text → Text
name_or [] username = username
name_or (c ∷ name) username = c ∷ name

-- `author?.name || author?.username`, of which nothing is shown where there is no author.
shown_author : Option Author → Text
unfolding name_or
shown_author none = []
shown_author (some a) = name_or a.name a.username

unfoldable pub author_address : Option Author → Text
unfolding username_of
author_address author = lit "/profile/" ++ username_of author

-- An article of the list.
pub record Article : Type 0 where
  pub tags : List Text
  pub is_draft : Bool
  pub href : Text
  pub title : Text
  pub excerpt : Option Text
  pub author_href : Text
  pub author : Text
  pub number : Text

-- The i-th of `n` posts.
unfoldable pub article : ℕ → ℕ → Post → Article
unfolding author_address shown_author
article n i post = record {
  tags = or_else post.tags [];
  is_draft = not post.published;
  href = lit "/blog/" ++ post.slug;
  title = post.title;
  excerpt = shown_text (some post.excerpt);
  author_href = author_address post.author;
  author = shown_author post.author;
  number = pad_start (to_string (n - i)) 2 b'0';
}

-- What `fetchPosts` makes of the answer, of which the list may be missing.
unfoldable pub fetched : Option (Option (List Post)) → List Post
fetched none = []
fetched (some items) = or_else items []

unfoldable pub articles : List Post → List Article
unfolding article
articles posts = map_from (article (length posts)) 0 posts

pub data View : Type 0 where
  no_posts : View
  list : List Article → View

view_of : List Article → View
view_of [] = no_posts
view_of (a ∷ rest) = list (a ∷ rest)

unfoldable pub blog_page : Option (Option (List Post)) → View
unfolding view_of articles fetched
blog_page answer = view_of (articles (fetched answer))

-- The page of a post.
pub record PostPage : Type 0 where
  pub tags : List Text
  pub title : Text
  pub excerpt : Option Text
  pub author_href : Text
  pub author : Text
  pub is_draft : Bool
  pub content : Text

-- `none` is the page "not found".
unfoldable pub post_page : Option (Post × Text) → Option PostPage
unfolding author_address shown_author
post_page none = none
post_page (some (post, content)) = some (record {
  tags = or_else post.tags [];
  title = post.title;
  excerpt = shown_text (some post.excerpt);
  author_href = author_address post.author;
  author = shown_author post.author;
  is_draft = not post.published;
  content = content;
})

-- The title and the description that the browser and search engines get.
pub record Metadata : Type 0 where
  pub title : Text
  pub description : Option Text

excerpt_or : Text → Text → Text
excerpt_or [] content = take 140 content
excerpt_or (c ∷ excerpt) content = c ∷ excerpt

unfoldable pub metadata : Option (Post × Text) → Metadata
unfolding excerpt_or
metadata none = record { title = lit "Post not found"; description = none }
metadata (some (post, content)) = record {
  title = post.title ++ lit " · Blog";
  description = some (excerpt_or post.excerpt content);
}
