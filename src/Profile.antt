-- ===== src/Profile.antt =====
-- frontend/src/app/profile/[username]/page.tsx and profile-edit-button.tsx: what the public page of a
-- user shows. The edit page is in the child Edit.
pub mod Links
pub mod Edit
pub mod Saving
mod Tests
use jjudge.Prelude.{
  ℕ, Bool, true, false, List, [], ◌∷◌, ◌++◌, map, filter, Option, none, some, Text, lit, text_eq,
  truthy, take, to_upper_case, starts_with, if◌then◌else◌,
}

-- What the server sends of a user. A field may be missing or null.
pub record UserProfile : Type 0 where
  pub username : Text
  pub name : Option Text
  pub bio : Option Text
  pub github : Option Text
  pub codeforces : Option Text
  pub atcoder : Option Text
  pub website : Option Text
  pub created_at : Option Text
  pub role : Option Text
  pub avatar_url : Option Text

-- `if (field)`
unfoldable pub is_given : Option Text → Bool
is_given none = false
is_given (some t) = truthy t

-- `field || other`
unfoldable pub given_or : Option Text → Text → Text
given_or none other = other
given_or (some []) other = other
given_or (some (c ∷ t)) other = c ∷ t

-- The metadata of the page, given what `fetchUser` found.
unfoldable pub page_title : Text → Option UserProfile → Text
unfolding is_given given_or
page_title username none = lit "@" ++ (username ++ lit " · Profile")
page_title username (some user) =
    if is_given user.name
    then given_or user.name [] ++ (lit " (@" ++ (user.username ++ lit ")"))
    else lit "@" ++ (username ++ lit " · Profile")

-- The keys of `socials`, in their order.
pub data Social : Type 0 where
  github codeforces atcoder website : Social

unfoldable pub socials : List Social
socials = github ∷ codeforces ∷ atcoder ∷ website ∷ []

unfoldable pub tag : Social → Text
tag github = lit "GH"
tag codeforces = lit "CF"
tag atcoder = lit "AC"
tag website = lit "WW"

-- `user[s.key]`
unfoldable pub field : Social → UserProfile → Option Text
field github user = user.github
field codeforces user = user.codeforces
field atcoder user = user.atcoder
field website user = user.website

unfoldable pub href : Social → Text → Text
href github v = lit "https://github.com/" ++ v
href codeforces v = lit "https://codeforces.com/profile/" ++ v
href atcoder v = lit "https://atcoder.jp/users/" ++ v
href website v = if starts_with (lit "http") v then v else lit "https://" ++ v

unfoldable pub active_socials : UserProfile → List Social
unfolding socials is_given field
active_socials user = filter (λ s. is_given (field s user)) socials

-- A link of the strip: its tag, its address and its text.
pub record Link : Type 0 where
  pub label : Text
  pub address : Text
  pub value : Text

unfoldable pub link : UserProfile → Social → Link
unfolding tag field href given_or
link user s = record {
  label = tag s;
  address = href s (given_or (field s user) []);
  value = given_or (field s user) [];
}

unfoldable pub links : UserProfile → List Link
unfolding link active_socials
links user = map (link user) (active_socials user)

-- `(user.name || user.username || "?").slice(0, 1).toUpperCase()`
unfoldable pub initial_of : UserProfile → Text
unfolding given_or
initial_of user =
    to_upper_case (take 1 (given_or user.name (given_or (some user.username) (lit "?"))))

-- `base` is `getPublicApiBaseUrl()`.
unfoldable pub avatar_src : Text → UserProfile → Option Text
unfolding is_given
avatar_src base user =
    if is_given user.avatar_url
    then some (base ++ (lit "/users/" ++ (user.username ++ lit "/avatar")))
    else none

-- Whether the link to the edit page is shown, given the name of the user who is signed in.
unfoldable pub shows_edit_button : Option Text → Text → Bool
shows_edit_button none username = false
shows_edit_button (some []) username = false
shows_edit_button (some (c ∷ t)) username = text_eq (c ∷ t) username

-- Where the button leads to.
unfoldable pub edit_address : Text → Text
edit_address username = lit "/profile/" ++ (username ++ lit "/edit")
