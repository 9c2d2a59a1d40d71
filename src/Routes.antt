-- ===== src/Routes.antt =====
-- The pages under frontend/src/app, as Next.js takes them from the folders with a page.tsx: a folder
-- in brackets stands for any text of an address.
pub mod Plain
pub mod Addresses
pub mod Links
pub mod Fixed
mod Tests
use jjudge.Prelude.{
  Bool, true, false, not, ◌&&◌, ◌||◌, List, [], ◌∷◌, filter, any, all, is_unreserved, ◌==◌, Text,
  lit, text_eq, truthy, split,
}

pub data Segment : Type 0 where
  fixed : Text → Segment
  dynamic : Segment

abbrev pub Route : Type 0
Route = List Segment

unfoldable pub matches : Segment → Text → Bool
matches (fixed t) s = text_eq t s
matches dynamic s = truthy s

unfoldable pub match_route : Route → List Text → Bool
unfolding matches
match_route [] [] = true
match_route (x ∷ r) (s ∷ ss) = matches x s && match_route r ss
match_route _ _ = false

-- The pages of everybody.
unfoldable pub public_routes : List Route
public_routes =
    []
    ∷ (fixed (lit "login") ∷ [])
    ∷ (fixed (lit "register") ∷ [])
    ∷ (fixed (lit "problems") ∷ [])
    ∷ (fixed (lit "problems") ∷ dynamic ∷ [])
    ∷ (fixed (lit "problems") ∷ dynamic ∷ fixed (lit "submissions") ∷ [])
    ∷ (fixed (lit "problems") ∷ dynamic ∷ fixed (lit "submissions") ∷ fixed (lit "mine") ∷ [])
    ∷ (fixed (lit "problems") ∷ dynamic ∷ fixed (lit "submissions") ∷ dynamic ∷ [])
    ∷ (fixed (lit "submissions") ∷ [])
    ∷ (fixed (lit "submissions") ∷ dynamic ∷ [])
    ∷ (fixed (lit "contests") ∷ [])
    ∷ (fixed (lit "contests") ∷ dynamic ∷ [])
    ∷ (fixed (lit "contests") ∷ dynamic ∷ fixed (lit "leaderboard") ∷ [])
    ∷ (fixed (lit "contests") ∷ dynamic ∷ fixed (lit "submissions") ∷ [])
    ∷ (fixed (lit "contests") ∷ dynamic ∷ fixed (lit "submissions") ∷ dynamic ∷ [])
    ∷ (fixed (lit "contests") ∷ dynamic ∷ fixed (lit "problems") ∷ dynamic ∷ [])
    ∷ (fixed (lit "blog") ∷ [])
    ∷ (fixed (lit "blog") ∷ dynamic ∷ [])
    ∷ (fixed (lit "profile") ∷ dynamic ∷ [])
    ∷ (fixed (lit "profile") ∷ dynamic ∷ fixed (lit "edit") ∷ [])
    ∷ []

-- Those under frontend/src/app/admin and frontend/src/app/manager.
unfoldable pub guarded_routes : List Route
guarded_routes =
    (fixed (lit "admin") ∷ [])
    ∷ (fixed (lit "admin") ∷ fixed (lit "users") ∷ [])
    ∷ (fixed (lit "admin") ∷ fixed (lit "problems") ∷ [])
    ∷ (fixed (lit "admin") ∷ fixed (lit "contests") ∷ [])
    ∷ (fixed (lit "admin") ∷ fixed (lit "approvals") ∷ [])
    ∷ (fixed (lit "manager") ∷ [])
    ∷ (fixed (lit "manager") ∷ fixed (lit "problems") ∷ [])
    ∷ (fixed (lit "manager") ∷ fixed (lit "contests") ∷ [])
    ∷ (fixed (lit "manager") ∷ fixed (lit "contests") ∷ dynamic ∷ [])
    ∷ (fixed (lit "manager") ∷ fixed (lit "blog") ∷ [])
    ∷ (fixed (lit "manager") ∷ fixed (lit "blog") ∷ fixed (lit "new") ∷ [])
    ∷ (fixed (lit "manager") ∷ fixed (lit "blog") ∷ dynamic ∷ fixed (lit "edit") ∷ [])
    ∷ []

-- An address from the site's root: behind two slashes a browser reads another host, and an address with
-- none in front it takes to be below the page it is on.
unfoldable pub is_absolute : Text → Bool
is_absolute [] = false
is_absolute (c ∷ []) = c == b'/'
is_absolute (c ∷ d ∷ path) = c == b'/' && not (d == b'/')

-- An address in which every character stands for itself. In one with a question mark, a number sign, a dot
-- or a percent sign, a browser reads a query, a fragment, another folder or another character.
unfoldable pub is_plain : Text → Bool
is_plain path = all (λ c. is_unreserved c || c == b'/') path

-- What stands between the slashes of a plain address.
unfoldable pub segments : Text → List Text
segments path = filter truthy (split b'/' path)

unfoldable pub is_page : List Text → Bool
unfolding match_route public_routes guarded_routes
is_page ss = any (λ r. match_route r ss) public_routes || any (λ r. match_route r ss) guarded_routes

-- Whether the address is absolute and plain, and a page answers to it. Of any other address nothing is
-- claimed: for it this is false.
unfoldable pub serves : Text → Bool
unfolding is_absolute is_plain segments is_page
serves path = is_absolute path && is_plain path && is_page (segments path)
