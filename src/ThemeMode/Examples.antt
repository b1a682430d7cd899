-- ===== src/ThemeMode/Examples.antt =====
-- The theme store of web/src/utils/themeMode.ts in a browser that remembers "dark".
use omni_store.Common.{true, false, none, some, List, [], ◌∷◌, ◌≡◌, refl}
use omni_store.ThemeMode.Store.{
  ThemeMode, ResolvedTheme, items, read_stored_theme_mode, ThemeStore, Browser,
  create_browser_theme_store,
}
use omni_store.ThemeMode.Laws.{InStep, Act, sets, prefers, subscribes, deps, acts, acts-InStep}

abbrev browser : Browser
browser = record {
  storage = items (("omnistore:theme-mode", "dark") ∷ []);
  document = some (record { data_theme = none; light_media = some true; dark_media = some false });
}

abbrev calls : List Act
calls = subscribes 1 ∷ prefers true ∷ sets (some "system") ∷ prefers false ∷ []

starts_dark : (create_browser_theme_store (some false) browser).snapshot.mode ≡ ThemeMode.dark
unfolding create_browser_theme_store read_stored_theme_mode
starts_dark = refl

acts-InStep_example :
    InStep
      (acts (deps (some false) browser) calls (create_browser_theme_store (some false) browser))
acts-InStep_example = acts-InStep (some false) browser calls

abbrev dark_store : ThemeStore Browser
dark_store = record {
  listeners = 1 ∷ [];
  system_dark = false;
  mode = ThemeMode.dark;
  has_synchronizer = false;
  snapshot = record { mode = ThemeMode.dark; resolved = ResolvedTheme.dark };
  world = browser;
  heard = [];
  sent = [];
}
