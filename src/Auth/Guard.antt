-- ===== src/Auth/Guard.antt =====
-- frontend/src/components/auth-guard.tsx, with its uses in frontend/src/app/admin/layout.tsx and
-- frontend/src/app/manager/layout.tsx, and the links of frontend/src/components/navbar.tsx.
pub mod Laws
use jjudge.Prelude.{
  ◌≡◌, refl, Bool, true, false, not, ◌&&◌, ◌||◌, List, [], ◌∷◌, ◌++◌, map, Option, none, some, any,
  if◌then◌else◌, Text, lit, text_eq, truthy, to_lower_case, to_upper_case, or_else,
}
use jjudge.Auth.Store.{User, StoredAuth, truthy_token}

-- The property `requireRole`: one role, or any of several.
pub data RequireRole : Type 0 where
  one : Text → RequireRole
  many : List Text → RequireRole

unfoldable pub user_field : (User → Option Text) → Option User → Option Text
user_field f none = none
user_field f (some u) = f u

lowered : Option Text → Text
lowered none = []
lowered (some r) = to_lower_case r

-- `auth.user?.role?.toLowerCase() ?? ""`
unfoldable pub role_of : StoredAuth → Text
unfolding user_field lowered
role_of a = lowered (user_field (λ u. u.role) a.user)

unfoldable pub allowed : RequireRole → List Text
allowed (one r) = to_lower_case r ∷ []
allowed (many rs) = map to_lower_case rs

-- `if (requireRole)`: the empty string asks for nothing.
asks : Option RequireRole → Bool
asks none = false
asks (some (one r)) = truthy r
asks (some (many rs)) = true

allows : Option RequireRole → Text → Bool
unfolding allowed
allows none role = true
allows (some r) role = any (text_eq role) (allowed r)

-- Where the effect sends the browser, if anywhere.
unfoldable pub redirect : Option RequireRole → StoredAuth → Option Text
unfolding asks allows
redirect r a =
    if not (truthy_token a.token)
    then some (lit "/login")
    else if asks r && not (allows r (role_of a))
    then some (lit "/login")
    else none

-- Whether the children are rendered.
unfoldable pub renders : Option RequireRole → StoredAuth → Bool
unfolding asks allows
renders r a =
    if not (truthy_token a.token)
    then false
    else if asks r && not (allows r (role_of a))
    then false
    else true

abbrev pub admin_layout : Option RequireRole
admin_layout = some (one (lit "admin"))

abbrev pub manager_layout : Option RequireRole
manager_layout = some (many (lit "manager" ∷ lit "admin" ∷ []))
