-- ===== src/Theme/Agreement.antt =====
-- The theme of the provider, of the document and of the storage are one.
use jjudge.Prelude.{
  ◌≡◌, refl, ◌∙◌, ap, Bool, true, false, Bool-cases, inl, inr, Option, none, some, Text, lit,
  text_eq, text_eq_sound, if◌then◌else◌,
}
use jjudge.Theme.{
  Theme, light, dark, name_of, is_dark, Browser, stored_theme, preferred, stored_or, theme_choice,
  script_choice, resolve_preferred_theme, apply_theme, script_theme, theme_script, Provider,
  set_theme, first_render, mount, other_theme, toggle_theme,
}

-- What happens to a provider.
pub data Step (p : Provider) : Provider → Type 0 where
  sets : (next : Theme) → Step p (set_theme next p)
  toggles : (rendered : Theme) → Step p (toggle_theme rendered p)

pub data Steps (p : Provider) : Provider → Type 0 where
  here : Steps p p
  next : {q r : Provider} → Steps p q → Step q r → Steps p r

-- The document looks like the theme.
pub record Looks (theme : Theme) (b : Browser) : Type 0 where
  pub has_class : b.dark_class ≡ is_dark theme
  pub has_scheme : b.color_scheme ≡ name_of theme

-- The document looks like the provider's theme, which is stored.
pub record Agrees (p : Provider) : Type 0 where
  pub looks : Looks p.theme p.browser
  pub is_stored : p.browser.stored ≡ some (name_of p.theme)

set_theme-Agrees : (theme : Theme) (p : Provider) → Agrees (set_theme theme p)
unfolding set_theme apply_theme
set_theme-Agrees theme p = record {
  looks = record { has_class = refl; has_scheme = refl };
  is_stored = refl;
}

Steps-Agrees : (b : Browser) (q : Provider) → Steps (mount (first_render b)) q → Agrees q
unfolding mount toggle_theme
Steps-Agrees b q here = set_theme-Agrees _ (first_render b)
Steps-Agrees b q (next {q = r} h (sets theme)) = set_theme-Agrees theme r
Steps-Agrees b q (next {q = r} h (toggles rendered)) = set_theme-Agrees (other_theme rendered) r

name_of-preferred : (d : Bool) → (if d then lit "dark" else lit "light") ≡ name_of (preferred d)
unfolding preferred name_of
name_of-preferred true = refl
name_of-preferred false = refl

script_choice-name_of :
    (o : Option Text) (d : Bool) → script_choice o d ≡ name_of (theme_choice o d)
unfolding script_choice theme_choice stored_theme stored_or name_of
script_choice-name_of none d = name_of-preferred d
script_choice-name_of (some t) d = elim (Bool-cases (text_eq t (lit "light"))) [
  | inl e ↦ rw e (text_eq_sound t (lit "light") e)
  | inr e ↦ elim (Bool-cases (text_eq t (lit "dark"))) [
    | inl f ↦ rw e (rw f (text_eq_sound t (lit "dark") f))
    | inr f ↦ rw e (rw f (name_of-preferred d))
  ]
]

script_theme-name_of : (b : Browser) → script_theme b ≡ name_of (resolve_preferred_theme b)
unfolding script_theme resolve_preferred_theme
script_theme-name_of b = script_choice-name_of b.stored b.prefers_dark

text_eq-name_of : (theme : Theme) → text_eq (name_of theme) (lit "dark") ≡ is_dark theme
unfolding name_of is_dark text_eq lit
text_eq-name_of light = refl
text_eq-name_of dark = refl

theme_script-Looks : (b : Browser) → Looks (resolve_preferred_theme b) (theme_script b)
unfolding theme_script
theme_script-Looks b = record {
  has_class =
      ap (λ t. text_eq t (lit "dark")) (script_theme-name_of b)
      ∙ text_eq-name_of (resolve_preferred_theme b);
  has_scheme = script_theme-name_of b;
}

theme_choice-name_of : (theme : Theme) (d : Bool) → theme_choice (some (name_of theme)) d ≡ theme
unfolding theme_choice stored_theme stored_or name_of text_eq lit
theme_choice-name_of light d = refl
theme_choice-name_of dark d = refl

resolve-stored :
    (theme : Theme) (b : Browser)
    → b.stored ≡ some (name_of theme)
    → resolve_preferred_theme b ≡ theme
unfolding resolve_preferred_theme
resolve-stored theme b e =
    ap (λ o. theme_choice o b.prefers_dark) e ∙ theme_choice-name_of theme b.prefers_dark

stored-Looks :
    (theme : Theme) (b : Browser) → b.stored ≡ some (name_of theme) → Looks theme (theme_script b)
stored-Looks theme b e =
    let r = resolve-stored theme b e in
    let l = theme_script-Looks b in
    record { has_class = l.has_class ∙ ap is_dark r; has_scheme = l.has_scheme ∙ ap name_of r }

-- However the theme is set or toggled, the document looks like the theme of the provider. A page that is
-- loaded afterwards looks like it too from the script on, whatever the system prefers by then, and its
-- provider takes the same theme.
pub Steps-Looks :
    (b : Browser) (q : Provider) (prefers_dark : Bool)
    → Steps (mount (first_render b)) q
    → Looks q.theme q.browser
      × Looks q.theme (theme_script (record q.browser { prefers_dark = prefers_dark }))
      × ((mount
            (first_render (theme_script (record q.browser { prefers_dark = prefers_dark })))).theme
          ≡ q.theme)
unfolding mount set_theme first_render theme_script
Steps-Looks b q prefers_dark h =
    let a = Steps-Agrees b q h in
    let c = record q.browser { prefers_dark = prefers_dark } in
    (
      a.looks,
      stored-Looks q.theme c a.is_stored,
      resolve-stored q.theme (theme_script c) a.is_stored,
    )
