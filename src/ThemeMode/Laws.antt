-- ===== src/ThemeMode/Laws.antt =====
-- The theme store of the browser (web/src/utils/themeMode.ts) keeps the page and the storage in step.
use Prim.Native.String.{String}
use text.Mathlib.TextPositions.{eq_refl}
use text.Mathlib.TextEquality.{eq_iff}
use mathlib.Core.Option.{get_or}
use omni_store.Common.{
  ℕ, Bool, true, false, ◌&&◌, Option, none, some, List, [], ◌∷◌, if_ind, if_split, any, ◌==◌, ◌≡◌,
  ◌≢◌, ◌⊎◌, inl, inr, Bool-cases, refl, sym, ap, ◌∙◌, arith,
}
use omni_store.ThemeMode.Store.{
  ThemeMode, ResolvedTheme, mode_text, as_theme_mode, theme_mode_storage_key, Storage, absent,
  refusing, full, items, lookup, insert, read_stored_theme_mode, write_stored_theme_mode,
  resolve_theme, Document, same_resolved, same_mode, set_media, apply_theme_to_document, ThemeStore,
  ThemeStoreDependencies, commit, persist_if, choose, adopt, send, set_mode, adopt_from_server,
  set_system_preference, subscribe, unsubscribe, set_synchronizer, synchronizer_fails, Browser,
  browser_dependencies, create_browser_theme_store,
}

as_theme_mode-mode_text : (mode : ThemeMode) → as_theme_mode (some (mode_text mode)) ≡ some mode
unfolding as_theme_mode
as_theme_mode-mode_text ThemeMode.light = refl
as_theme_mode-mode_text ThemeMode.dark = refl
as_theme_mode-mode_text ThemeMode.system = refl

lookup-insert : (k v : String) (m : List (String × String)) → lookup k (insert k v m) ≡ some v
unfolding lookup insert
lookup-insert k v [] = rw eq_refl
lookup-insert k v ((j, w) ∷ m) = ground (arith, eq_iff j k, eq_iff k k, lookup-insert k v m)

-- Whether a mode can be written.
abbrev pub is_writable : Storage → Bool
is_writable (items m) = true
is_writable _ = false

-- A mode that is written to a storage that takes it is read back; any other storage stays as it was.
pub read-write_stored_theme_mode :
    (mode : ThemeMode) (s : Storage)
    → (is_writable s ≡ true → read_stored_theme_mode (write_stored_theme_mode mode s) ≡ some mode)
      × (is_writable s ≡ false → write_stored_theme_mode mode s ≡ s)
unfolding read_stored_theme_mode write_stored_theme_mode
read-write_stored_theme_mode mode absent = (λ h. cc, λ h. refl)
read-write_stored_theme_mode mode refusing = (λ h. cc, λ h. refl)
read-write_stored_theme_mode mode (full m) = (λ h. cc, λ h. refl)
read-write_stored_theme_mode mode (items m) = (
  λ h.
      ap as_theme_mode (lookup-insert theme_mode_storage_key (mode_text mode) m)
      ∙ as_theme_mode-mode_text mode,
  λ h. cc,
)

-- The page shows the theme: the attribute of its root, and one theme-color element that applies.
pub record Shows (resolved : ResolvedTheme) (doc : Document) : Type 0 where
  pub root : doc.data_theme ≡ some resolved
  pub light :
      (doc.light_media ≡ none)
      ⊎ (doc.light_media ≡ some (same_resolved ResolvedTheme.light resolved))
  pub dark :
      (doc.dark_media ≡ none) ⊎ (doc.dark_media ≡ some (same_resolved ResolvedTheme.dark resolved))

abbrev pub ShownIn : ResolvedTheme → Option Document → Type 0
ShownIn resolved none = Unit
ShownIn resolved (some doc) = Shows resolved doc

-- A storage that can be written holds the mode of the store, or none while that is 'system'.
abbrev pub HeldIn : ThemeMode → Storage → Type 0
HeldIn mode s = is_writable s ≡ true → get_or (read_stored_theme_mode s) ThemeMode.system ≡ mode

pub record InStep (s : ThemeStore Browser) : Type 0 where
  pub mode_kept : s.snapshot.mode ≡ s.mode
  pub theme_kept : s.snapshot.resolved ≡ resolve_theme s.mode s.system_dark
  pub shown : ShownIn s.snapshot.resolved s.world.document
  pub held : HeldIn s.mode s.world.storage

apply-ShownIn :
    (r : ResolvedTheme) (doc : Option Document) → ShownIn r (apply_theme_to_document r doc)
unfolding apply_theme_to_document
apply-ShownIn r none = tt
apply-ShownIn r (some doc) = record {
  root = refl;
  light = media_shown _ doc.light_media;
  dark = media_shown _ doc.dark_media;
}
  where
    media_shown : (b : Bool) (m : Option Bool) → (set_media b m ≡ none) ⊎ (set_media b m ≡ some b)
    media_shown b none = inl refl
    media_shown b (some old) = inr refl

same_mode-eq : (a b : ThemeMode) → same_mode a b ≡ true → a ≡ b
same_mode-eq a b h = ground arith

same_resolved-eq : (a b : ResolvedTheme) → same_resolved a b ≡ true → a ≡ b
same_resolved-eq a b h = ground arith

write-HeldIn : (mode : ThemeMode) (s : Storage) → HeldIn mode (write_stored_theme_mode mode s)
write-HeldIn mode s h = elim (Bool-cases (is_writable s)) [
  | inl w ↦ ap (λ o. get_or o ThemeMode.system) ((read-write_stored_theme_mode mode s).0 w)
  | inr w ↦
      let same = (read-write_stored_theme_mode mode s).1 w in
      let no_write : is_writable s ≡ true = ap is_writable (sym same) ∙ h in cc
]

module _ (media : Option Bool) (w : Browser) where
  -- A change of the mode is written, unless the mode is what it was.
  commit-InStep :
      (mode : ThemeMode) (dark_ persist : Bool) (s : ThemeStore Browser)
      → (persist ≡ true) ⊎ (mode ≡ s.mode)
      → InStep s
      → InStep (commit (browser_dependencies media w) mode dark_ persist s)
  unfolding commit
  commit-InStep mode dark_ persist s p v =
      if_split InStep
        (same_mode mode s.snapshot.mode
          && same_resolved (resolve_theme mode dark_) s.snapshot.resolved)
        (λ same.
          let m : mode ≡ s.snapshot.mode = same_mode-eq _ _ (ground arith) in
          let r : resolve_theme mode dark_ ≡ s.snapshot.resolved =
            same_resolved-eq _ _ (ground arith) in
          record {
            mode_kept = sym m;
            theme_kept = sym r;
            shown = v.shown;
            held = λ h. v.held h ∙ sym v.mode_kept ∙ sym m;
          })
        (λ differs. record {
          mode_kept = refl;
          theme_kept = refl;
          shown = apply-ShownIn (resolve_theme mode dark_) _;
          held = persisted mode persist s p v;
        })
    where
      persisted :
          (mode : ThemeMode) (persist : Bool) (s : ThemeStore Browser)
          → (persist ≡ true) ⊎ (mode ≡ s.mode)
          → InStep s
          → HeldIn mode (persist_if (browser_dependencies media w) persist mode s.world).storage
      persisted mode true s p v = write-HeldIn mode s.world.storage
      persisted mode false s (inl e) v = cc
      persisted mode false s (inr e) v = λ h. v.held h ∙ sym e

-- The calls of a store's methods.
pub data Act : Type 0 where
  sets adopts : Option String → Act
  prefers syncs : Bool → Act
  subscribes unsubscribes : ℕ → Act
  fails : Act

unfoldable pub act : ThemeStoreDependencies Browser → Act → ThemeStore Browser → ThemeStore Browser
act deps (sets v) s = set_mode deps v s
act deps (adopts v) s = adopt_from_server deps v s
act deps (prefers d) s = set_system_preference deps d s
act deps (syncs b) s = set_synchronizer deps b s
act deps (subscribes l) s = subscribe deps l s
act deps (unsubscribes l) s = unsubscribe deps l s
act deps fails s = synchronizer_fails deps s

unfoldable pub acts :
    ThemeStoreDependencies Browser → List Act → ThemeStore Browser → ThemeStore Browser
unfolding act
acts deps [] s = s
acts deps (a ∷ more) s = acts deps more (act deps a s)

module _ (media : Option Bool) (w : Browser) where
  abbrev pub deps : ThemeStoreDependencies Browser
  deps = browser_dependencies media w

  record-InStep :
      (s : ThemeStore Browser) → InStep s → (n : List ℕ) → InStep (record s { listeners = n })
  record-InStep s v n = record {
    mode_kept = v.mode_kept;
    theme_kept = v.theme_kept;
    shown = v.shown;
    held = v.held;
  }

  choose-InStep :
      (o : Option ThemeMode) (s : ThemeStore Browser)
      → InStep s
      → InStep (choose deps o s) × InStep (adopt deps o s)
  choose-InStep none s v = (v, v)
  choose-InStep (some m) s v =
      let c = commit-InStep media w m s.system_dark true s (inl refl) v in
      (sent_on (commit deps m s.system_dark true s) c, c)
    where
      sent_on : (t : ThemeStore Browser) → InStep t → InStep (send deps m t)
      sent_on t u =
          if_ind InStep t.has_synchronizer
            (record {
              mode_kept = u.mode_kept;
              theme_kept = u.theme_kept;
              shown = u.shown;
              held = u.held;
            })
            u

  act-InStep : (a : Act) (s : ThemeStore Browser) → InStep s → InStep (act deps a s)
  unfolding act set_mode adopt_from_server set_system_preference set_synchronizer subscribe
      unsubscribe synchronizer_fails
  act-InStep (sets v) s h = (choose-InStep (as_theme_mode v) s h).0
  act-InStep (adopts v) s h = (choose-InStep (as_theme_mode v) s h).1
  act-InStep (prefers d) s h = commit-InStep media w s.mode d false s (inr refl) h
  act-InStep (syncs b) s h = record {
    mode_kept = h.mode_kept;
    theme_kept = h.theme_kept;
    shown = h.shown;
    held = h.held;
  }
  act-InStep (subscribes l) s h =
      if_ind InStep (any (λ k. k == l) s.listeners) h (record-InStep s h (l ∷ s.listeners))
  act-InStep (unsubscribes l) s h = record-InStep s h _
  act-InStep fails s h = record {
    mode_kept = h.mode_kept;
    theme_kept = h.theme_kept;
    shown = h.shown;
    held = h.held;
  }

  acts-keep : (calls : List Act) (s : ThemeStore Browser) → InStep s → InStep (acts deps calls s)
  unfolding acts
  acts-keep [] s h = h
  acts-keep (a ∷ more) s h = acts-keep more (act deps a s) (act-InStep a s h)

  created : InStep (create_browser_theme_store media w)
  unfolding create_browser_theme_store
  created = record {
    mode_kept = refl;
    theme_kept = refl;
    shown = apply-ShownIn _ w.document;
    held = λ h. refl;
  }

  -- After any calls of the methods of the browser's store, in any order: the snapshot has the mode
  -- and what it resolves to, the document shows that theme, and a storage that can be written gives
  -- the mode back when it is read at the next start.
  pub acts-InStep :
      (calls : List Act) → InStep (acts deps calls (create_browser_theme_store media w))
  acts-InStep calls = acts-keep calls (create_browser_theme_store media w) created

module _ {W : Type 0} (deps : ThemeStoreDependencies W) (s : ThemeStore W) where
  -- While the mode is not 'system', a change of the system's preference changes neither the snapshot
  -- nor the world, and no listener hears of it.
  pub set_system_preference-fixed :
      (dark_ : Bool)
      → s.mode ≢ ThemeMode.system
      → s.snapshot.mode ≡ s.mode
      → s.snapshot.resolved ≡ resolve_theme s.mode s.system_dark
      → ((set_system_preference deps dark_ s).snapshot ≡ s.snapshot)
        × ((set_system_preference deps dark_ s).world ≡ s.world)
        × ((set_system_preference deps dark_ s).heard ≡ s.heard)
  unfolding set_system_preference commit resolve_theme
  set_system_preference-fixed dark_ other m r = ground (arith, other, m, r)
