-- ===== src/Sidebar/Sections.antt =====
-- Which link of a sidebar is marked.
use jjudge.Prelude.{
  ℕ, ◌≤◌, ◌≡◌, refl, ◌⊎◌, inl, inr, true, Bool-cases, List, [], ◌∷◌, ◌++◌, filter, length, All,
  Text, lit, text_eq, text_eq_sound, starts_with, starts_with_sound, arith,
}
use jjudge.Sidebar.{SidebarLink, admin_links, manager_links, is_active, sidebar}

-- The number of links that are marked.
unfoldable pub marked : List SidebarLink → Text → ℕ
marked links pathname = length (filter (λ l. l.active) (sidebar links pathname))

-- An address at which a link is marked is that of the link, or one below it.
active-cases :
    (pathname href : Text)
    → is_active pathname href ≡ true
    → (pathname ≡ href) ⊎ ((rest : Text) × (pathname ≡ (href ++ lit "/") ++ rest))
unfolding is_active
active-cases pathname href h = elim (Bool-cases (text_eq pathname href)) [
  | inl e ↦ inl (text_eq_sound pathname href e)
  | inr e ↦ inr (starts_with_sound (href ++ lit "/") pathname (ground (arith, h, e)))
]

-- One link is marked at the address of a link and below it.
abbrev pub Marks : List SidebarLink → SidebarLink → Type 0
Marks links l =
    (marked links l.href ≡ 1) × ((rest : Text) → marked links ((l.href ++ lit "/") ++ rest) ≡ 1)

admin_links-Marks : All (Marks admin_links) admin_links
unfolding marked sidebar is_active text_eq starts_with lit
admin_links-Marks = (
  (refl, λ rest. refl),
  ((refl, λ rest. refl), ((refl, λ rest. refl), ((refl, λ rest. refl), tt))),
)

manager_links-Marks : All (Marks manager_links) manager_links
unfolding marked sidebar is_active text_eq starts_with lit
manager_links-Marks = ((refl, λ rest. refl), ((refl, λ rest. refl), ((refl, λ rest. refl), tt)))

marked_once :
    (links : List SidebarLink) (l : SidebarLink) (pathname : Text)
    → Marks links l
    → is_active pathname l.href ≡ true
    → marked links pathname ≡ 1
marked_once links l pathname m h = elim (active-cases pathname l.href h) [
  | inl e ↦ rw e m.0
  | inr r ↦ rw r.1 (m.1 r.0)
]

-- Of some of the links, either one is marked and it is the only one of all, or none is.
once_or_never :
    (links ls : List SidebarLink) (pathname : Text)
    → All (Marks links) ls
    → (marked links pathname ≡ 1) ⊎ (marked ls pathname ≡ 0)
unfolding marked sidebar
once_or_never links [] pathname h = inr refl
once_or_never links (l ∷ ls) pathname (m, h) = elim (Bool-cases (is_active pathname l.href)) [
  | inl e ↦ inl (marked_once links l pathname m e)
  | inr e ↦ elim (once_or_never links ls pathname h) [ inl f ↦ inl f | inr f ↦ inr (rw e f) ]
]

at_most_once :
    (links : List SidebarLink) (pathname : Text)
    → All (Marks links) links
    → marked links pathname ≤ 1
at_most_once links pathname h = elim (once_or_never links links pathname h) [
  | inl e ↦ omega arith
  | inr e ↦ omega arith
]

-- At no address more than one link of the sidebar of administrators, or of that of managers, is marked; at
-- the address of a link, and at every address below it, exactly one is.
pub sidebar-Marks :
    (pathname : Text)
    → (marked admin_links pathname ≤ 1)
      × (marked manager_links pathname ≤ 1)
      × All (Marks admin_links) admin_links
      × All (Marks manager_links) manager_links
sidebar-Marks pathname = (
  at_most_once admin_links pathname admin_links-Marks,
  at_most_once manager_links pathname manager_links-Marks,
  admin_links-Marks,
  manager_links-Marks,
)
