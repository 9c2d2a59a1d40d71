-- ===== src/Auth/Guard/Laws.antt =====
-- frontend/src/components/auth-guard.tsx: the effect and the rendering agree.
use mathlib.Core.Bool.{and-eq-true_iff}
use jjudge.Prelude.{
  ◌≡◌, true, ◌&&◌, List, [], ◌∷◌, map, Option, none, some, any, arith, Text, text_eq, to_lower_case,
  Bool-cases, inl, inr, ◌↔◌, ◌⊎◌, text_eq_iff,
}
use jjudge.Auth.Store.{StoredAuth, truthy_token}
use jjudge.Auth.Guard.{RequireRole, many, role_of, allowed, redirect, renders}

-- The role is one of those listed, whatever the case of their letters.
abbrev pub IsAmong : Text → List Text → Type 0
IsAmong role [] = ⊥
IsAmong role (r ∷ rs) = (role ≡ to_lower_case r) ⊎ IsAmong role rs

any_sound :
    (role : Text) (rs : List Text)
    → any (text_eq role) (map to_lower_case rs) ≡ true
    → IsAmong role rs
any_sound role [] h = cc
any_sound role (r ∷ rs) h = elim (Bool-cases (text_eq role (to_lower_case r))) [
  | inl e ↦ inl ((text_eq_iff _ _).0 e)
  | inr e ↦ inr (any_sound role rs (rw e at h))
]

any_complete :
    (role : Text) (rs : List Text)
    → IsAmong role rs
    → any (text_eq role) (map to_lower_case rs) ≡ true
any_complete role [] h = elim h [ ]
any_complete role (r ∷ rs) (inl e) = rw ((text_eq_iff _ _).1 e)
any_complete role (r ∷ rs) (inr h) = ground (arith, any_complete role rs h)

renders-many :
    (rs : List Text) (a : StoredAuth)
    → renders (some (many rs)) a
      ≡ truthy_token a.token && any (text_eq (role_of a)) (map to_lower_case rs)
unfolding renders allowed
renders-many rs a = ground arith

renders-many_iff :
    (rs : List Text) (a : StoredAuth)
    → (renders (some (many rs)) a ≡ true) ↔ ((truthy_token a.token ≡ true) × IsAmong (role_of a) rs)
renders-many_iff rs a = (
  λ h.
      let (t, k) = (and-eq-true_iff _ _).0 (rw (renders-many rs a) at h) in
      (t, any_sound (role_of a) rs k),
  λ h. rw (renders-many rs a, h.0, any_complete (role_of a) rs h.1),
)

renders-redirect_iff :
    (r : Option RequireRole) (a : StoredAuth) → (renders r a ≡ true) ↔ (redirect r a ≡ none)
unfolding renders redirect
renders-redirect_iff r a = ground arith

-- A page behind the guard is rendered exactly when nobody is sent to the login page; with a list
-- of roles that is exactly when a token is held and the user's role is one of the list, up to case.
pub renders-redirect :
    (a : StoredAuth)
    → ((r : Option RequireRole) → (renders r a ≡ true) ↔ (redirect r a ≡ none))
      × ((rs : List Text)
          → (renders (some (many rs)) a ≡ true)
            ↔ ((truthy_token a.token ≡ true) × IsAmong (role_of a) rs))
renders-redirect a = (λ r. renders-redirect_iff r a, λ rs. renders-many_iff rs a)
