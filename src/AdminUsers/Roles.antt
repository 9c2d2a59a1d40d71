-- ===== src/AdminUsers/Roles.antt =====
-- What the change of a role comes to, for every answer of the server.
use jjudge.Prelude.{
  ℕ, Bool, true, false, ◌≡◌, refl, List, [], ◌∷◌, Option, none, some, Text, lit, text_eq,
}
use jjudge.Async.{set, ◌>>◌}
use jjudge.Async.Run.{Oracle, Outcome, run}
use jjudge.AdminUsers.{
  User, Page, Request, patch_role, Answer, replace_in, role_changed, change_role, guarded_change,
  handle_role_change,
}

abbrev pub changed_page : Option User → Page → Page
changed_page none s = record s { error = some (lit "Failed to update role."); updating = none }
changed_page (some updated) s = record s {
  user_list = replace_in updated s.user_list;
  updating = none;
}

-- What a selection comes to, given whether the role is the one that the user has.
abbrev pub Changed :
    Bool
    → Oracle Request Answer
    → Text
    → User
    → Text
    → Page
    → Outcome Request Page (Unit {0})
    → Type 0
Changed true o t user new_role s out = (out.sent ≡ []) × (out.state ≡ s)
Changed false o t user new_role s out =
    let r = patch_role t user.id new_role in
    (out.sent ≡ r ∷ []) × (out.state ≡ changed_page (o [] r) s)

role_changed_lem :
    (o : Oracle Request Answer) (h : List Request) (i : ℕ) (s : Page) (a : Option User)
    → let out =
        run o h
          (record s { updating = some i })
          (role_changed a >> set (λ s. record s { updating = none })) in
      (out.sent ≡ h) × (out.state ≡ changed_page a s)
unfolding role_changed
role_changed_lem o h i s none = (refl, refl)
role_changed_lem o h i s (some u) = (refl, refl)

guarded_change-Changed :
    (o : Oracle Request Answer) (t : Text) (user : User) (new_role : Text) (s : Page) (b : Bool)
    → Changed b o t user new_role s (run o [] s (guarded_change (some t) user new_role b))
unfolding guarded_change change_role
guarded_change-Changed o t user new_role s true = (refl, refl)
guarded_change-Changed o t user new_role s false =
    let r = patch_role t user.id new_role in role_changed_lem o (r ∷ []) user.id s (o [] r)

-- The selection of the role that a user has does nothing. Any other sends one request: where it is
-- taken, the user of the answer takes the place of the one with the same id in the list; where it is
-- refused, the list is as it was and the page shows the error. In both cases no row stays disabled.
pub handle_role_change-Changed :
    (o : Oracle Request Answer) (t : Text) (user : User) (new_role : Text) (s : Page)
    → Changed
        (text_eq new_role user.role)
        o
        t
        user
        new_role
        s
        (run o [] s (handle_role_change (some t) user new_role))
unfolding handle_role_change
handle_role_change-Changed o t user new_role s =
    guarded_change-Changed o t user new_role s (text_eq new_role user.role)
