-- ===== src/ThemeMode/Store.antt =====
-- web/src/utils/themeMode.ts: the stored mode, the document, and createThemeStore over both.
use Prim.Native.String.{String}
use text.Mathlib.Text.{◌==◌ as str_eq}
use mathlib.Core.Option.{get_or}
use omni_store.Common.{
  ℕ, Bool, true, false, ◌&&◌, Option, none, some, List, [], ◌∷◌, ◌++◌, any, keep, not,
  if◌then◌else◌, ◌==◌,
}

pub data ThemeMode : Type 0 where
  light dark system : ThemeMode

pub data ResolvedTheme : Type 0 where
  light dark : ResolvedTheme

abbrev pub theme_mode_storage_key : String
theme_mode_storage_key = "omnistore:theme-mode"

abbrev pub mode_text : ThemeMode → String
mode_text ThemeMode.light = "light"
mode_text ThemeMode.dark = "dark"
mode_text ThemeMode.system = "system"

-- `isThemeMode` narrows a value to a mode; a value that is no string is `none`.
unfoldable pub as_theme_mode : Option String → Option ThemeMode
as_theme_mode none = none
as_theme_mode (some s) =
    if str_eq s "light"
    then some ThemeMode.light
    else if str_eq s "dark"
    then some ThemeMode.dark
    else if str_eq s "system"
    then some ThemeMode.system
    else none

-- localStorage: not there, there and throwing at each access, there and throwing at each write, or a
-- table of items that can be written.
pub data Storage : Type 0 where
  absent refusing : Storage
  full items : List (String × String) → Storage

unfoldable pub lookup : String → List (String × String) → Option String
lookup k [] = none
lookup k ((j, v) ∷ m) = if str_eq j k then some v else lookup k m

unfoldable pub insert : String → String → List (String × String) → List (String × String)
insert k v [] = (k, v) ∷ []
insert k v ((j, w) ∷ m) = if str_eq j k then (k, v) ∷ m else (j, w) ∷ insert k v m

unfoldable pub read_stored_theme_mode : Storage → Option ThemeMode
unfolding as_theme_mode lookup
read_stored_theme_mode absent = none
read_stored_theme_mode refusing = none
read_stored_theme_mode (full m) = as_theme_mode (lookup theme_mode_storage_key m)
read_stored_theme_mode (items m) = as_theme_mode (lookup theme_mode_storage_key m)

unfoldable pub write_stored_theme_mode : ThemeMode → Storage → Storage
unfolding insert
write_stored_theme_mode mode absent = absent
write_stored_theme_mode mode refusing = refusing
write_stored_theme_mode mode (full m) = full m
write_stored_theme_mode mode (items m) = items (insert theme_mode_storage_key (mode_text mode) m)

unfoldable pub resolve_theme : ThemeMode → Bool → ResolvedTheme
resolve_theme ThemeMode.system dark_ = if dark_ then ResolvedTheme.dark else ResolvedTheme.light
resolve_theme ThemeMode.light dark_ = ResolvedTheme.light
resolve_theme ThemeMode.dark dark_ = ResolvedTheme.dark

-- What the theme changes in the document: the attribute of its root, and the `media` attribute of the
-- two theme-color elements, where the page has them. `true` stands for 'all', `false` for 'not all'.
pub record Document : Type 0 where
  pub data_theme : Option ResolvedTheme
  pub light_media : Option Bool
  pub dark_media : Option Bool

abbrev pub same_resolved : ResolvedTheme → ResolvedTheme → Bool
same_resolved ResolvedTheme.light ResolvedTheme.light = true
same_resolved ResolvedTheme.dark ResolvedTheme.dark = true
same_resolved _ _ = false

abbrev pub set_media : Bool → Option Bool → Option Bool
set_media b none = none
set_media b (some old) = some b

unfoldable pub apply_theme_to_document : ResolvedTheme → Option Document → Option Document
apply_theme_to_document resolved none = none
apply_theme_to_document resolved (some doc) = some (record {
  data_theme = some resolved;
  light_media = set_media (same_resolved ResolvedTheme.light resolved) doc.light_media;
  dark_media = set_media (same_resolved ResolvedTheme.dark resolved) doc.dark_media;
})

pub record ThemeSnapshot : Type 0 where
  pub mode : ThemeMode
  pub resolved : ResolvedTheme

-- The functions that a store is given, as what they do to a world `W`; `none` where one is left out.
pub record ThemeStoreDependencies (W : Type 0) : Type 0 where
  pub initial_mode : Option ThemeMode
  -- `media?.matches`.
  pub media_matches : Option Bool
  pub persist : Option (ThemeMode → W → W)
  pub apply : Option (ResolvedTheme → W → W)
  pub notify : Option (W → W)

-- The variables that the methods share, the world, and the calls made: of the listeners and of the
-- synchronizer, the latest first.
pub record ThemeStore (W : Type 0) : Type 0 where
  pub listeners : List ℕ
  pub system_dark : Bool
  pub mode : ThemeMode
  pub has_synchronizer : Bool
  pub snapshot : ThemeSnapshot
  pub world : W
  pub heard : List ℕ
  pub sent : List ThemeMode

abbrev pub same_mode : ThemeMode → ThemeMode → Bool
same_mode ThemeMode.light ThemeMode.light = true
same_mode ThemeMode.dark ThemeMode.dark = true
same_mode ThemeMode.system ThemeMode.system = true
same_mode _ _ = false

abbrev pub call {ℓ κ} : {A : Type ℓ} {W : Type κ} → Option (A → W → W) → A → W → W
call none a w = w
call (some f) a w = f a w

module _ {W : Type 0} (deps : ThemeStoreDependencies W) where
  unfoldable pub create_theme_store : W → ThemeStore W
  unfolding resolve_theme
  create_theme_store w =
      let system_dark = get_or deps.media_matches false in
      let mode = get_or deps.initial_mode ThemeMode.system in
      record {
        listeners = [];
        system_dark = system_dark;
        mode = mode;
        has_synchronizer = false;
        snapshot = record { mode = mode; resolved = resolve_theme mode system_dark };
        world = w;
        heard = [];
        sent = [];
      }

  abbrev pub persist_if : Bool → ThemeMode → W → W
  persist_if false mode w = w
  persist_if true mode w = call deps.persist mode w

  unfoldable pub commit : ThemeMode → Bool → Bool → ThemeStore W → ThemeStore W
  unfolding resolve_theme
  commit next_mode next_dark persist s =
      let next = resolve_theme next_mode next_dark in
      if same_mode next_mode s.snapshot.mode && same_resolved next s.snapshot.resolved
      then record s { mode = next_mode; system_dark = next_dark }
      else record s {
        mode = next_mode;
        system_dark = next_dark;
        snapshot = record { mode = next_mode; resolved = next };
        world = call deps.apply next (persist_if persist next_mode s.world);
        heard = s.listeners ++ s.heard;
      }

  -- The listeners are a set.
  unfoldable pub subscribe : ℕ → ThemeStore W → ThemeStore W
  subscribe l s =
      if any (λ k. k == l) s.listeners then s else record s { listeners = l ∷ s.listeners }

  unfoldable pub unsubscribe : ℕ → ThemeStore W → ThemeStore W
  unsubscribe l s = record s { listeners = keep (λ k. not (k == l)) s.listeners }

  abbrev pub send : ThemeMode → ThemeStore W → ThemeStore W
  send mode s = if s.has_synchronizer then record s { sent = mode ∷ s.sent } else s

  abbrev pub choose : Option ThemeMode → ThemeStore W → ThemeStore W
  choose none s = s
  choose (some mode) s = send mode (commit mode s.system_dark true s)

  unfoldable pub set_mode : Option String → ThemeStore W → ThemeStore W
  unfolding as_theme_mode commit
  set_mode value s = choose (as_theme_mode value) s

  abbrev pub adopt : Option ThemeMode → ThemeStore W → ThemeStore W
  adopt none s = s
  adopt (some mode) s = commit mode s.system_dark true s

  unfoldable pub adopt_from_server : Option String → ThemeStore W → ThemeStore W
  unfolding as_theme_mode commit
  adopt_from_server value s = adopt (as_theme_mode value) s

  unfoldable pub set_system_preference : Bool → ThemeStore W → ThemeStore W
  unfolding commit
  set_system_preference dark_ s = commit s.mode dark_ false s

  unfoldable pub set_synchronizer : Bool → ThemeStore W → ThemeStore W
  set_synchronizer given s = record s { has_synchronizer = given }

  -- The promise of the synchronizer is rejected.
  abbrev pub run_notify : Option (W → W) → W → W
  run_notify none w = w
  run_notify (some f) w = f w

  unfoldable pub synchronizer_fails : ThemeStore W → ThemeStore W
  synchronizer_fails s = record s { world = run_notify deps.notify s.world }

-- The browser's world.
pub record Browser : Type 0 where
  pub storage : Storage
  pub document : Option Document

abbrev pub persist_browser : ThemeMode → Browser → Browser
persist_browser mode w = record w { storage = write_stored_theme_mode mode w.storage }

abbrev pub apply_browser : ResolvedTheme → Browser → Browser
apply_browser resolved w = record w { document = apply_theme_to_document resolved w.document }

abbrev pub browser_dependencies : Option Bool → Browser → ThemeStoreDependencies Browser
browser_dependencies media w = record {
  initial_mode = some (get_or (read_stored_theme_mode w.storage) ThemeMode.system);
  media_matches = media;
  persist = some persist_browser;
  apply = some apply_browser;
  notify = none;
}

-- createBrowserThemeStore, and the theme of the document set once as the module is loaded. `media` is
-- what the media query matches, where the browser has matchMedia.
unfoldable pub create_browser_theme_store : Option Bool → Browser → ThemeStore Browser
unfolding create_theme_store
create_browser_theme_store media w =
    let s = create_theme_store (browser_dependencies media w) w in
    record s { world = apply_browser s.snapshot.resolved s.world }
