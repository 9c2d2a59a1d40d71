-- ===== src/AdminUsers/Reachable.antt =====
-- The list of users under any number of changes at once.
use jjudge.Prelude.{
  if◌then◌else◌, ℕ, Bool, true, false, ◌≡◌, refl, ap, ◌∙◌, List, [], ◌∷◌, map, Option, none, some,
  Text, lit, arith,
}
use jjudge.Async.{set, ◌>>◌}
use jjudge.Async.Schedule.{Page as Schedule, Reach, Reach-Holds, Keeps, KeepsFrom, Keeps-KeepsFrom}
use jjudge.AdminUsers.{
  User, UserListResponse, Page, Request, Answer, Handler, replace_user, replace_in, role_changed,
  change_role, guarded_change, handle_role_change, Offers, rows,
}

abbrev pub ids : List User → List ℕ
ids = map (λ u. u.id)

-- The page has a list with the ids of `l`, in their order.
pub record Shows (l : UserListResponse) (s : Page) : Type 0 where
  pub current : UserListResponse
  pub is_current : s.user_list ≡ some current
  pub has_ids : ids current.items ≡ ids l.items
  pub has_total : current.total ≡ l.total

ids-replace_user : (u : User) (xs : List User) → ids (replace_user u xs) ≡ ids xs
unfolding replace_user
ids-replace_user u [] = refl
ids-replace_user u (x ∷ xs) = ground (arith, ids-replace_user u xs)

replace_in-Shows :
    (l : UserListResponse) (u : User) (s : Page)
    → Shows l s
    → Shows l (record s { user_list = replace_in u s.user_list })
unfolding replace_in
replace_in-Shows l u s h = record {
  current = record h.current { items = replace_user u h.current.items };
  is_current = ap (replace_in u) h.is_current;
  has_ids = ids-replace_user u h.current.items ∙ h.has_ids;
  has_total = h.has_total;
}

same-Shows :
    (l : UserListResponse) (s s' : Page) → s'.user_list ≡ s.user_list → Shows l s → Shows l s'
same-Shows l s s' e h = record {
  current = h.current;
  is_current = e ∙ h.is_current;
  has_ids = h.has_ids;
  has_total = h.has_total;
}

module _ (l : UserListResponse) where
  role_changed-Keeps :
      (a : Option User)
      → Keeps (Shows l) (role_changed a >> set (λ s. record s { updating = none }))
  unfolding role_changed
  role_changed-Keeps none = (
    λ s. same-Shows l s (record s { error = some (lit "Failed to update role.") }) refl,
    (λ s. same-Shows l s (record s { updating = none }) refl, tt),
  )
  role_changed-Keeps (some u) =
      (replace_in-Shows l u, (λ s. same-Shows l s (record s { updating = none }) refl, tt))

  guarded_change-Keeps :
      (t : Option Text) (user : User) (r : Text) (b : Bool)
      → Keeps (Shows l) (guarded_change t user r b)
  unfolding guarded_change change_role
  guarded_change-Keeps none user r b = tt
  guarded_change-Keeps (some t) user r true = tt
  guarded_change-Keeps (some t) user r false =
      (λ s. same-Shows l s (record s { updating = some user.id }) refl, role_changed-Keeps)

  Offers-KeepsFrom :
      (t : Option Text) (s : Page) (u : Handler)
      → Shows l s
      → Offers t s u
      → KeepsFrom (Shows l) s u
  unfolding handle_role_change
  Offers-KeepsFrom t s u h o =
      rw o.runs
        (Keeps-KeepsFrom (Shows l) s _ (guarded_change-Keeps t o.event.user o.event.new_role _) h)

abbrev pub is_set : Option Text → Bool
is_set none = false
is_set (some m) = true

ids-rows :
    (l : UserListResponse) (s : Page) (e : Option Text)
    → s.error ≡ e
    → Shows l s
    → ids (rows s) ≡ (if is_set e then [] else ids l.items)
unfolding rows
ids-rows l s none e h = rw (e, h.is_current) h.has_ids
ids-rows l s (some m) e h = rw e refl

-- Once the list is there, and while it is not loaded again, the ids in it stay as they are and in their
-- order, and so does the total, however many changes of roles are on their way, in whatever order they
-- are answered, and whatever the answers are. While no error is set, the table has exactly these rows;
-- once one is set, as by a change that is refused, it has none.
pub Reach-Shows :
    (l : UserListResponse) (t : Option Text) (s : Page) (q : Schedule Request Answer Page)
    → s.user_list ≡ some l
    → Reach (Offers t) (record { state = s; tasks = [] }) q
    → Shows l q.state × (ids (rows q.state) ≡ (if is_set q.state.error then [] else ids l.items))
Reach-Shows l t s q e r =
    let h : Shows l q.state =
      (Reach-Holds (Offers t) (Shows l) (Offers-KeepsFrom l t) _ q r (record {
        now = record { current = l; is_current = e; has_ids = refl; has_total = refl };
        pending = tt;
      })).now in
    (h, ids-rows l q.state q.state.error refl h)
