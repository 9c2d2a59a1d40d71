-- ===== src/Theme/Tests.antt =====
-- The theme of a concrete browser.
use jjudge.Prelude.{◌≡◌, true, false, some, lit}
use jjudge.Theme.{dark, Browser, Provider, theme_script, first_render, mount, toggle_theme}
use jjudge.Theme.Agreement.{Looks, here, next, toggles, Steps-Looks}

abbrev browser : Browser
browser = record {
  stored = some (lit "blue");
  prefers_dark = true;
  dark_class = false;
  color_scheme = lit "normal";
}

abbrev toggled : Provider
toggled = toggle_theme dark (mount (first_render browser))

Steps-Looks_example :
    Looks toggled.theme toggled.browser
    × Looks toggled.theme (theme_script (record toggled.browser { prefers_dark = true }))
    × ((mount (first_render (theme_script (record toggled.browser { prefers_dark = true })))).theme
        ≡ toggled.theme)
Steps-Looks_example = Steps-Looks browser toggled true (next here (toggles dark))
