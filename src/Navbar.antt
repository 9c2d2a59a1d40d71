-- ===== src/Navbar.antt =====
-- frontend/src/components/navbar.tsx: the account menu and the links of the bar.
pub mod Laws
mod Tests
use jjudge.Prelude.{
  Bool, true, false, map, not, ◌&&◌, ◌||◌, List, [], ◌∷◌, ◌++◌, Option, none, some, if◌then◌else◌,
  Text, lit, text_eq, truthy, to_upper_case, or_else,
}
use jjudge.Auth.Store.{User, StoredAuth, truthy_token, Store, Env, clear_auth}
use jjudge.Auth.Guard.{role_of, user_field}

pub record NavLink : Type 0 where
  pub href : Text
  pub label : Text

-- `a || b` on fields that may be missing or empty.
or_text : Option Text → Text → Text
or_text none d = d
or_text (some []) d = d
or_text (some (c ∷ s)) d = c ∷ s

head_of : Text → Text
head_of [] = []
head_of (c ∷ s) = c ∷ []

-- What the bar shows of the user.
unfoldable pub display_name : StoredAuth → Text
unfolding user_field or_text
display_name a =
    or_text (user_field (λ u. u.name) a.user)
      (or_text (user_field (λ u. u.email) a.user) (lit "Account"))

unfoldable pub initial_of : StoredAuth → Text
unfolding user_field or_text head_of
initial_of a = to_upper_case (
    head_of (
      or_text (user_field (λ u. u.name) a.user)
        (or_text (user_field (λ u. u.email) a.user) (lit "?"))))

unfoldable pub is_admin : StoredAuth → Bool
is_admin a = text_eq (role_of a) (lit "admin")

unfoldable pub is_manager : StoredAuth → Bool
unfolding is_admin
is_manager a = is_admin a || text_eq (role_of a) (lit "manager")

abbrev pub base_links : List NavLink
base_links =
    record { href = lit "/problems"; label = lit "Problems" }
    ∷ record { href = lit "/contests"; label = lit "Contests" }
    ∷ record { href = lit "/submissions"; label = lit "Submissions" }
    ∷ record { href = lit "/blog"; label = lit "Blog" }
    ∷ []

abbrev pub manager_link : NavLink
manager_link = record { href = lit "/manager/problems"; label = lit "Manager" }

abbrev pub admin_link : NavLink
admin_link = record { href = lit "/admin/problems"; label = lit "Admin" }

unfoldable pub nav_links : StoredAuth → List NavLink
nav_links a =
    let base = if is_manager a then base_links ++ manager_link ∷ [] else base_links in
    if is_admin a then base ++ admin_link ∷ [] else base

-- The account menu's link to the profile, where the user has a name that is not empty.
unfoldable pub profile_address : Option Text → Option Text
profile_address none = none
profile_address (some []) = none
profile_address (some (c ∷ username)) = some (lit "/profile/" ++ (c ∷ username))

unfoldable pub profile_link : StoredAuth → Option Text
unfolding user_field profile_address
profile_link a = profile_address (user_field (λ u. u.username) a.user)

abbrev pub home_link : Text
home_link = lit "/"

abbrev pub sign_in_links : List Text
sign_in_links = lit "/login" ∷ lit "/register" ∷ []

unfoldable pub to_list : Option Text → List Text
to_list none = []
to_list (some t) = t ∷ []

-- The links of the account: the profile's of who is signed in, else those to sign in.
unfoldable pub account_links : StoredAuth → List Text
unfolding to_list
account_links a = if truthy_token a.token then to_list (profile_link a) else sign_in_links

-- The addresses of all links of the bar.
unfoldable pub bar : StoredAuth → List Text
bar a = home_link ∷ (map (λ l. l.href) (nav_links a) ++ account_links a)

-- The dropdown: whether it is open, and what its handlers do.
pub data MenuEvent : Type 0 where
  click_trigger click_outside click_inside press_escape press_other choose_profile sign_out :
      MenuEvent

pub record Menu : Type 0 where
  pub is_open : Bool
  pub store : Store

-- The listeners on the document are there while the menu is open.
unfoldable pub menu_step : Env → MenuEvent → Menu → Menu
menu_step v click_trigger m = record m { is_open = not m.is_open }
menu_step v click_outside m = record m { is_open = if m.is_open then false else m.is_open }
menu_step v click_inside m = m
menu_step v press_escape m = record m { is_open = if m.is_open then false else m.is_open }
menu_step v press_other m = m
menu_step v choose_profile m = record m { is_open = false }
menu_step v sign_out m = record { is_open = false; store = clear_auth v m.store }
