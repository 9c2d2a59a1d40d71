-- ===== src/BlogEditor.antt =====
-- frontend/src/app/manager/blog: the pages on which managers write posts. This file has what the form
-- of a new post (new/page.tsx) and that of an old one ([slug]/edit/page.tsx) share.
pub mod Create
pub mod Edit
pub mod Listing
pub mod Outcomes
pub mod Reopen
mod Tests
use jjudge.Api.{Failure}
use jjudge.Prelude.{
  Bool, List, [], ◌∷◌, ◌++◌, map, filter, Option, none, some, or_else, Text, lit, truthy, trim,
  split,
}

-- The form's fields: `useState<Form>`.
pub record Form : Type 0 where
  pub title : Text
  pub slug : Text
  pub excerpt : Text
  pub content : Text
  pub tags : Text
  pub published : Bool

-- The tags that are sent.
unfoldable pub tags_of : Form → List Text
tags_of form = filter truthy (map trim (split b',' form.tags))

-- The answer to a request that saves a post: the slug that it has now, where the body names it.
pub data Result : Type 0 where
  failed : Failure → Result
  saved : Option Text → Result

-- `/blog/${post.slug}`
unfoldable pub post_address : Option Text → Text
post_address slug = lit "/blog/" ++ or_else slug (lit "undefined")

-- The names of the inputs.
pub data Field : Type 0 where
  title slug excerpt content tags : Field

-- `handleChange`: `{ ...prev, [name]: value }`
unfoldable pub handle_change : Field → Text → Form → Form
handle_change title value prev = record prev { title = value }
handle_change slug value prev = record prev { slug = value }
handle_change excerpt value prev = record prev { excerpt = value }
handle_change content value prev = record prev { content = value }
handle_change tags value prev = record prev { tags = value }
