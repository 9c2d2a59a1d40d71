-- ===== src/Navbar/Laws.antt =====
-- The links of the bar against the guards of the layouts that they lead to.
use jjudge.Prelude.{◌≡◌, Bool, true, ◌&&◌, List, any, arith, Text, lit, text_eq, to_lower_case}
use jjudge.Auth.Store.{StoredAuth, truthy_token}
use jjudge.Auth.Guard.{renders, admin_layout, manager_layout}
use jjudge.Navbar.{NavLink, is_admin, is_manager, nav_links, admin_link, manager_link}

-- `links.some(link => link.href === href)`
pub links_to : Text → List NavLink → Bool
links_to href = any (λ l. text_eq l.href href)

renders-admin_layout :
    (a : StoredAuth) → renders admin_layout a ≡ truthy_token a.token && is_admin a
unfolding renders is_admin lit to_lower_case
renders-admin_layout a = ground arith

renders-manager_layout :
    (a : StoredAuth) → renders manager_layout a ≡ truthy_token a.token && is_manager a
unfolding renders is_manager lit to_lower_case
renders-manager_layout a = ground arith

links_to-admin : (a : StoredAuth) → links_to admin_link.href (nav_links a) ≡ is_admin a
unfolding links_to nav_links lit text_eq
links_to-admin a = ground arith

links_to-manager : (a : StoredAuth) → links_to manager_link.href (nav_links a) ≡ is_manager a
unfolding links_to nav_links lit text_eq
links_to-manager a = ground arith

-- For a signed-in user the bar shows the admin link exactly when the guard of the admin pages lets
-- the user in, and the manager link exactly when the guard of the manager pages does.
pub nav_links-renders :
    (a : StoredAuth)
    → truthy_token a.token ≡ true
    → (links_to admin_link.href (nav_links a) ≡ renders admin_layout a)
      × (links_to manager_link.href (nav_links a) ≡ renders manager_layout a)
nav_links-renders a h =
    (rw (links_to-admin, renders-admin_layout, h), rw (links_to-manager, renders-manager_layout, h))
