-- ===== src/Navbar/Tests.antt =====
-- The links of the bar for one user.
use jjudge.Prelude.{◌≡◌, refl, none, some, lit, ◌∷◌, []}
use jjudge.Auth.Store.{StoredAuth}
use jjudge.Auth.Guard.{renders, admin_layout, manager_layout}
use jjudge.Navbar.{nav_links, admin_link, manager_link}
use jjudge.Navbar.Laws.{links_to, nav_links-renders}

abbrev manager : StoredAuth
manager = record {
  token = some (b't' ∷ []);
  user = some (record { name = none; email = none; username = none; role = some (lit "manager") });
}

nav_links-renders_example :
    (links_to admin_link.href (nav_links manager) ≡ renders admin_layout manager)
    × (links_to manager_link.href (nav_links manager) ≡ renders manager_layout manager)
nav_links-renders_example = nav_links-renders manager refl
