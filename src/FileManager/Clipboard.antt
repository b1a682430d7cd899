-- ===== src/FileManager/Clipboard.antt =====
-- Copying and cutting in web/src/pages/FileManager.tsx, and pasting into the same directory.
use omni_store.Common.{
  true, false, List, [], ◌∷◌, ◌++◌, if_split, if◌then◌else◌, ◌≡◌, refl, ap, sym, ◌∙◌, arith,
}
use omni_store.Texts.{Text, slash, text_eq, text_eq_iff}
use omni_store.FilePaths.{normalize_path, join_path, parent_path}
use omni_store.FilePaths.Laws.{IsName, parent_path-join_path}
use omni_store.FileManager.Defs.{
  FileEntry, FileClipboard, FileClipboardItem, FileManagerView, is_supported, copy_to_clipboard,
  cut_to_clipboard,
}
use omni_store.FileManager.Actions.{
  check_items, get_paste_disabled_reason, paste_disabled_reason, entry_path, clipboard_item,
  copy_entries, cut_entries, is_none, is_empty, items_of,
}

join_path_lem :
    (current name : Text)
    → join_path current name ≡ (
        if text_eq (normalize_path current) (slash ∷ [])
        then slash ∷ name
        else normalize_path current ++ (slash ∷ name))
unfolding join_path
join_path_lem current name = refl

-- The path of an entry is its name joined to a directory in normal form.
entry_path-join_path :
    (current name : Text)
    → normalize_path current ≡ current
    → join_path current name ≡ entry_path current name
entry_path-join_path current name h = join_path_lem current name ∙ rw h refl

check_items-here :
    (key target : Text) (item : FileClipboardItem) (items : List FileClipboardItem)
    → item.source_key ≡ key
    → target ≡ parent_path item.path
    → is_none (check_items key target (item ∷ items)) ≡ false
unfolding check_items
check_items-here key target item items h e =
    ground (
      arith,
      (text_eq_iff item.source_key key).1 h,
      (text_eq_iff target (parent_path item.path)).1 e,
    )

-- A clipboard whose first item lies in the current directory cannot be pasted.
reason-here :
    {W : Type 0} (item : FileClipboardItem) (items : List FileClipboardItem) (w : FileManagerView W)
    → w.clipboard.items ≡ item ∷ items
    → item.source_key ≡ w.source_key
    → normalize_path w.current_path ≡ parent_path item.path
    → is_none (paste_disabled_reason w) ≡ false
unfolding paste_disabled_reason get_paste_disabled_reason
reason-here item items w c k p =
    let here = check_items-here w.source_key (normalize_path w.current_path) item items k p in
    let there : is_none (check_items w.source_key (normalize_path w.current_path) w.clipboard.items)
        ≡ false =
      rw c here in
    ground (arith, there)

module _ {W : Type 0} (e : FileEntry) (es : List FileEntry) (v : FileManagerView W) where
  items_of-first :
      is_supported e.type ≡ true → items_of v (e ∷ es) ≡ clipboard_item v e ∷ items_of v es
  items_of-first s = ground (arith, s)

  source_of : (clipboard_item v e).source_key ≡ v.source_key
  unfolding clipboard_item
  source_of = refl

  above :
      normalize_path v.current_path ≡ v.current_path
      → IsName e.name
      → normalize_path v.current_path ≡ parent_path (clipboard_item v e).path
  unfolding clipboard_item
  above n i = sym (
      ap parent_path (sym (entry_path-join_path v.current_path e.name n))
      ∙ parent_path-join_path v.current_path e.name i)

  -- Whether pasting is not possible.
  abbrev pub Blocked : FileManagerView W → Type 0
  Blocked w = is_none (paste_disabled_reason w) ≡ false

  taken-Blocked :
      is_supported e.type ≡ true
      → normalize_path v.current_path ≡ v.current_path
      → IsName e.name
      → (clip : FileClipboard) → clip.items ≡ items_of v (e ∷ es)
      → Blocked (
          if is_empty (items_of v (e ∷ es))
          then v
          else record v { clipboard = clip; selected_names = [] })
  taken-Blocked s n i clip c =
      let first = items_of-first s in
      let some_item : is_empty (items_of v (e ∷ es)) ≡ false = rw first refl in
      if_split Blocked (is_empty (items_of v (e ∷ es)))
        (λ no. absurd (ground (arith, some_item, no)))
        (λ yes.
          reason-here (clipboard_item v e) (items_of v es)
            (record v { clipboard = clip; selected_names = [] }) (c ∙ first) source_of (above n i))

  -- What was just copied or cut from a directory in normal form, beginning with an entry that is not
  -- unsupported, cannot be pasted there.
  pub paste_disabled_reason-copy_entries :
      is_supported e.type ≡ true
      → normalize_path v.current_path ≡ v.current_path
      → IsName e.name
      → (is_none (paste_disabled_reason (copy_entries (e ∷ es) v)) ≡ false)
        × (is_none (paste_disabled_reason (cut_entries (e ∷ es) v)) ≡ false)
  unfolding copy_entries cut_entries
  paste_disabled_reason-copy_entries s n i = (
    taken-Blocked s n i (copy_to_clipboard _) refl,
    taken-Blocked s n i (cut_to_clipboard _) refl,
  )
