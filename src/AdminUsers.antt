-- ===== src/AdminUsers.antt =====
-- frontend/src/app/admin/users/page.tsx: the page on which an administrator gives users their roles.
pub mod Roles
pub mod Reachable
mod Tests
use jjudge.Prelude.{
  ℕ, Bool, true, false, not, ◌≡◌, ◌&&◌, List, [], ◌∷◌, map, any, Option, none, some, ◌==◌,
  if◌then◌else◌, Text, lit, text_eq,
}
use jjudge.Async.{Task, set, call, done, ◌>>=◌, ◌>>◌}

pub record User : Type 0 where
  pub id : ℕ
  pub username : Text
  pub email : Text
  pub name : Text
  pub role : Text
  pub created_at : Text

pub record UserListResponse : Type 0 where
  pub items : List User
  pub page : ℕ
  pub limit : ℕ
  pub total : ℕ

-- The state variables; `user_list` is the one that the source calls `data`.
pub record Page : Type 0 where
  pub user_list : Option UserListResponse
  pub error : Option Text
  pub updating : Option ℕ

pub data Request : Type 0 where
  list_users : Text → Request
  patch_role : Text → ℕ → Text → Request

-- `none` where the promise is rejected.
abbrev pub Answer : Request → Type 0
Answer (list_users t) = Option UserListResponse
Answer (patch_role t id role) = Option User

abbrev pub Handler : Type 0
Handler = Task Request Answer Page (Unit {0})

unfoldable pub initial : Page
initial = record { user_list = none; error = none; updating = none }

-- `ROLES`
unfoldable pub roles : List Text
roles = lit "user" ∷ lit "manager" ∷ lit "admin" ∷ []

unfoldable pub loaded : Option UserListResponse → Handler
loaded none = set (λ s. record s { error = some (lit "Failed to load users.") })
loaded (some l) = set (λ s. record s { user_list = some l })

-- The effect.
unfoldable pub load : Option Text → Handler
unfolding loaded
load none = done
load (some token) = call (list_users token) >>= loaded

-- `prev.items.map((u) => (u.id === updated.id ? updated : u))`
unfoldable pub replace_user : User → List User → List User
replace_user updated = map (λ u. if u.id == updated.id then updated else u)

unfoldable pub replace_in : User → Option UserListResponse → Option UserListResponse
unfolding replace_user
replace_in updated none = none
replace_in updated (some prev) = some (record prev { items = replace_user updated prev.items })

unfoldable pub role_changed : Option User → Handler
unfolding replace_in
role_changed none = set (λ s. record s { error = some (lit "Failed to update role.") })
role_changed (some updated) = set (λ s. record s { user_list = replace_in updated s.user_list })

unfoldable pub change_role : Text → User → Text → Handler
unfolding role_changed
change_role token user new_role = do
  set (λ s. record s { updating = some user.id })
  role_changed (← call (patch_role token user.id new_role))
  set (λ s. record s { updating = none })

-- `if (newRole === user.role || !auth.token) return;`
unfoldable pub guarded_change : Option Text → User → Text → Bool → Handler
unfolding change_role
guarded_change none user new_role is_same = done
guarded_change (some token) user new_role true = done
guarded_change (some token) user new_role false = change_role token user new_role

unfoldable pub handle_role_change : Option Text → User → Text → Handler
unfolding guarded_change
handle_role_change token user new_role =
    guarded_change token user new_role (text_eq new_role user.role)

-- The rows: none where there is an error, or no list yet.
unfoldable pub rows : Page → List User
rows s = elim s.error [ some e ↦ [] | none ↦ elim s.user_list [ none ↦ [] | some l ↦ l.items ] ]

-- `disabled={updating === user.id}`
is_updating : Option ℕ → User → Bool
is_updating none user = false
is_updating (some i) user = i == user.id

-- What the page offers: the selection of a role in the row of a user.
pub record Event : Type 0 where
  pub user : User
  pub new_role : Text

unfoldable pub enabled : Page → Event → Bool
unfolding rows is_updating roles
enabled s e =
    any (λ u. u.id == e.user.id) (rows s)
    && any (text_eq e.new_role) roles
    && not (is_updating s.updating e.user)

pub record Offers (token : Option Text) (s : Page) (t : Handler) : Type 0 where
  pub event : Event
  pub is_enabled : enabled s event ≡ true
  pub runs : t ≡ handle_role_change token event.user event.new_role
