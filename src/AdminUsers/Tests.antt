-- ===== src/AdminUsers/Tests.antt =====
-- The theorems on the users at concrete inputs.
use jjudge.Prelude.{◌≡◌, refl, [], ◌∷◌, none, some, lit, text_eq}
use jjudge.Async.Run.{Oracle, run}
use jjudge.Async.Schedule as Async
use jjudge.Async.Schedule.{Reach, here, next, start, answer}
use jjudge.AdminUsers.{
  User, UserListResponse, Page, Request, list_users, patch_role, Answer, roles, replace_user,
  change_role, guarded_change, handle_role_change, rows, enabled,
}
use jjudge.AdminUsers.Roles.{Changed, handle_role_change-Changed}
use jjudge.AdminUsers.Reachable.{ids, Shows, Reach-Shows}

abbrev ada : User
ada = record {
  id = 1;
  username = lit "ada";
  email = lit "ada@example.org";
  name = lit "Ada";
  role = lit "admin";
  created_at = lit "2026-01-01T00:00:00Z";
}

abbrev bob : User
bob = record {
  id = 2;
  username = lit "bob";
  email = lit "bob@example.org";
  name = lit "Bob";
  role = lit "user";
  created_at = lit "2026-01-02T00:00:00Z";
}

abbrev users : UserListResponse
users = record { items = ada ∷ bob ∷ []; page = 1; limit = 20; total = 2 }

abbrev shown : Page
shown = record { user_list = some users; error = none; updating = none }

-- A server that gives every user the role "manager".
abbrev promote : Oracle Request Answer
promote h (list_users t) = some users
promote h (patch_role t id role) = some (record bob { role = role })

replace_user_test :
    replace_user (record bob { role = lit "manager" }) (ada ∷ bob ∷ [])
    ≡ ada ∷ record bob { role = lit "manager" } ∷ []
unfolding replace_user
replace_user_test = refl

handle_role_change-Changed_example :
    Changed
      (text_eq (lit "manager") (lit "user"))
      promote
      (lit "token")
      bob
      (lit "manager")
      shown
      (run promote [] shown (handle_role_change (some (lit "token")) bob (lit "manager")))
handle_role_change-Changed_example =
    handle_role_change-Changed promote (lit "token") bob (lit "manager") shown

-- The page while the role of bob is being changed.
abbrev changing : Async.Page Request Answer Page
changing = record {
  state = record shown { updating = some 2 };
  tasks = (Async.settle shown (handle_role_change (some (lit "token")) bob (lit "manager"))).1 ∷ [];
}

Reach-Shows_example :
    Shows users (record shown { updating = some 2 })
    × (ids (rows (record shown { updating = some 2 })) ≡ ids users.items)
unfolding enabled rows roles handle_role_change guarded_change change_role text_eq lit
Reach-Shows_example = Reach-Shows users (some (lit "token")) shown changing refl (
    next here (
      start (handle_role_change (some (lit "token")) bob (lit "manager"))
        (record {
          event = record { user = bob; new_role = lit "manager" };
          is_enabled = refl;
          runs = refl;
        })
        refl))
