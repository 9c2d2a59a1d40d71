-- ===== src/Sidebar/Tests.antt =====
-- The sidebars at concrete addresses.
use jjudge.Prelude.{◌≡◌, ◌≤◌, refl, true, false, [], ◌∷◌, map, All, lit, text_eq, starts_with}
use jjudge.Sidebar.{admin_links, manager_links, is_active, sidebar}
use jjudge.Sidebar.Sections.{marked, Marks, sidebar-Marks}

-- On the page of one contest the link to the contests is marked.
sidebar_test :
    map (λ l. l.active) (sidebar manager_links (lit "/manager/contests/7"))
    ≡ false ∷ true ∷ false ∷ []
unfolding sidebar is_active text_eq starts_with lit
sidebar_test = refl

sidebar-Marks_example :
    (marked admin_links (lit "/admin/users") ≤ 1)
    × (marked manager_links (lit "/admin/users") ≤ 1)
    × All (Marks admin_links) admin_links
    × All (Marks manager_links) manager_links
sidebar-Marks_example = sidebar-Marks (lit "/admin/users")
