-- ===== src/Theme.antt =====
-- frontend/src/components/theme-provider.tsx, theme-toggle.tsx and the script in
-- frontend/src/app/layout.tsx that runs before the page is interactive: the light and the dark theme.
pub mod Agreement
mod Tests
use jjudge.Prelude.{
  ℕ, Bool, true, false, ◌||◌, Option, none, some, Text, lit, text_eq, if◌then◌else◌,
}

pub data Theme : Type 0 where
  light dark : Theme

unfoldable pub name_of : Theme → Text
name_of light = lit "light"
name_of dark = lit "dark"

unfoldable pub is_dark : Theme → Bool
is_dark light = false
is_dark dark = true

-- What the browser keeps: the item under "theme", what the media query answers, and what stands at the
-- root of the document.
pub record Browser : Type 0 where
  pub stored : Option Text
  pub prefers_dark : Bool
  pub dark_class : Bool
  pub color_scheme : Text

-- `stored === "light" || stored === "dark" ? stored : ...`
stored_theme : Text → Option Theme
stored_theme t =
    if text_eq t (lit "light")
    then some light
    else if text_eq t (lit "dark")
    then some dark
    else none

preferred : Bool → Theme
preferred true = dark
preferred false = light

stored_or : Option Theme → Bool → Theme
unfolding preferred
stored_or none prefers_dark = preferred prefers_dark
stored_or (some theme) prefers_dark = theme

theme_choice : Option Text → Bool → Theme
unfolding stored_theme stored_or preferred
theme_choice none prefers_dark = preferred prefers_dark
theme_choice (some t) prefers_dark = stored_or (stored_theme t) prefers_dark

unfoldable pub resolve_preferred_theme : Browser → Theme
unfolding theme_choice
resolve_preferred_theme b = theme_choice b.stored b.prefers_dark

unfoldable pub apply_theme : Theme → Browser → Browser
unfolding is_dark name_of
apply_theme theme b = record b {
  dark_class = is_dark theme;
  color_scheme = name_of theme;
  stored = some (name_of theme);
}

-- The script's own text for the theme, over texts instead of themes.
script_choice : Option Text → Bool → Text
script_choice none prefers_dark = if prefers_dark then lit "dark" else lit "light"
script_choice (some t) prefers_dark =
    if text_eq t (lit "light") || text_eq t (lit "dark")
    then t
    else if prefers_dark
    then lit "dark"
    else lit "light"

unfoldable pub script_theme : Browser → Text
unfolding script_choice
script_theme b = script_choice b.stored b.prefers_dark

unfoldable pub theme_script : Browser → Browser
unfolding script_theme
theme_script b = record b {
  dark_class = text_eq (script_theme b) (lit "dark");
  color_scheme = script_theme b;
}

-- The provider: its state variable, and the browser around it.
pub record Provider : Type 0 where
  pub theme : Theme
  pub browser : Browser

unfoldable pub set_theme : Theme → Provider → Provider
unfolding apply_theme
set_theme next p = record { theme = next; browser = apply_theme next p.browser }

-- The first render, and the effect after it.
unfoldable pub first_render : Browser → Provider
first_render b = record { theme = light; browser = b }

unfoldable pub mount : Provider → Provider
unfolding set_theme resolve_preferred_theme
mount p = set_theme (resolve_preferred_theme p.browser) p

other_theme : Theme → Theme
other_theme light = dark
other_theme dark = light

-- `toggleTheme` of a render, which closes over the theme of this render.
unfoldable pub toggle_theme : Theme → Provider → Provider
unfolding set_theme other_theme
toggle_theme rendered p = set_theme (other_theme rendered) p
