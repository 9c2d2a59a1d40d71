-- ===== src/Sidebar.antt =====
-- frontend/src/app/admin/sidebar.tsx and frontend/src/app/manager/sidebar.tsx: the links beside the pages
-- of administrators and of managers.
pub mod Sections
mod Tests
use jjudge.Prelude.{Bool, ◌||◌, List, [], ◌∷◌, ◌++◌, map, Text, lit, text_eq, starts_with}

pub record SidebarLink : Type 0 where
  pub label : Text
  pub href : Text

abbrev pub admin_links : List SidebarLink
admin_links =
    record { label = lit "Users"; href = lit "/admin/users" }
    ∷ record { label = lit "Problems"; href = lit "/admin/problems" }
    ∷ record { label = lit "Contests"; href = lit "/admin/contests" }
    ∷ record { label = lit "Approvals"; href = lit "/admin/approvals" }
    ∷ []

abbrev pub manager_links : List SidebarLink
manager_links =
    record { label = lit "Problems"; href = lit "/manager/problems" }
    ∷ record { label = lit "Contests"; href = lit "/manager/contests" }
    ∷ record { label = lit "Blog"; href = lit "/manager/blog" }
    ∷ []

-- `pathname === href || pathname.startsWith(href + "/")`
unfoldable pub is_active : Text → Text → Bool
is_active pathname href = text_eq pathname href || starts_with (href ++ lit "/") pathname

-- A link as it is shown, with whether it is marked.
pub record ShownLink : Type 0 where
  pub shown : SidebarLink
  pub active : Bool

unfoldable pub sidebar : List SidebarLink → Text → List ShownLink
unfolding is_active
sidebar links pathname = map (λ l. record { shown = l; active = is_active pathname l.href }) links

-- frontend/src/app/admin/page.tsx and frontend/src/app/manager/page.tsx: where the bare addresses lead.
abbrev pub admin_page : Text
admin_page = lit "/admin/users"

abbrev pub manager_page : Text
manager_page = lit "/manager/contests"
