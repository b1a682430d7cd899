-- ===== src/FileManager/Examples.antt =====
-- Runs of the file manager in "/docs", with the files "a" and "b" and the directory "c".
use omni_store.Common.{
  ℕ, suc, true, false, none, List, [], ◌∷◌, ◌==◌, if◌then◌else◌, All, ◌≡◌, refl,
}
use omni_store.Texts.{Text, slash, text_eq, starts_with}
use omni_store.FilePaths.{normalize_path, parent_path, join_path}
use omni_store.FileManager.Defs.{
  EntryType, FileEntry, FileClipboardItem, Request, Reply, done, api_error, FileManagerView,
  cut_to_clipboard,
}
use omni_store.FileManager.Actions.{
  running_file_task, clipboard_item, is_none, is_empty, get_paste_disabled_reason,
  paste_disabled_reason, paste_clipboard, delete_selected_entries, drop_entries_on_directory,
}
use omni_store.FileManager.Laws.{
  MayPaste, get_paste_disabled_reason-MayPaste, PasteOutcome, paste_clipboard-PasteOutcome,
}
use omni_store.FileManager.Selection.{
  DeleteOutcome, delete_refused, delete_selected_entries-DeleteOutcome,
}

abbrev entry : ℕ → EntryType → FileEntry
entry c type = record { name = c ∷ []; type = type; size = 1; mtime = [] }

abbrev files : List FileEntry
files =
    entry b'a' EntryType.file
    ∷ entry b'b' EntryType.file
    ∷ entry b'c' EntryType.dir
    ∷ entry b'd' EntryType.unsupported
    ∷ []

abbrev item : ℕ → FileClipboardItem
item c = record {
  id = [];
  source_key = b's' ∷ [];
  source_name = [];
  path = slash ∷ c ∷ [];
  name = c ∷ [];
  is_dir = false;
}

-- Every request but the first fails; the world counts them.
abbrev server : Request → ℕ → ℕ × Reply
server r n = (suc n, if n == 0 then done else api_error "no")

abbrev docs : Text
docs = slash ∷ b'd' ∷ b'o' ∷ b'c' ∷ b's' ∷ []

abbrev view : FileManagerView ℕ
view = record {
  source_key = b's' ∷ [];
  source_name = [];
  current_path = docs;
  can_write = true;
  entries = files;
  selected_names = (b'a' ∷ []) ∷ (b'b' ∷ []) ∷ [];
  clipboard = cut_to_clipboard (item b'x' ∷ item b'y' ∷ []);
  upload_running = false;
  archive_downloading = false;
  paste_task = none;
  batch_delete_task = none;
  sent = [];
  refreshed = [];
  world = 0;
}

allowed :
    get_paste_disabled_reason view.clipboard.items view.clipboard.operation view.source_key docs
      true
    ≡ none
unfolding get_paste_disabled_reason text_eq normalize_path parent_path
allowed = refl

get_paste_disabled_reason-MayPaste_example :
    (is_none view.clipboard.operation ≡ false)
    × (is_empty view.clipboard.items ≡ false)
    × (true ≡ true)
    × All (MayPaste view.source_key (normalize_path docs)) view.clipboard.items
get_paste_disabled_reason-MayPaste_example =
    get_paste_disabled_reason-MayPaste view.clipboard.items view.clipboard.operation view.source_key
      docs true allowed

-- The first item is moved; the second stays on the clipboard.
paste_left : (paste_clipboard server view).clipboard ≡ cut_to_clipboard (item b'y' ∷ [])
unfolding paste_clipboard paste_disabled_reason text_eq normalize_path parent_path
paste_left = refl

paste_clipboard-PasteOutcome_example :
    PasteOutcome server view (paste_disabled_reason view) (paste_clipboard server view)
paste_clipboard-PasteOutcome_example = paste_clipboard-PasteOutcome server view

delete_left : (delete_selected_entries server view).selected_names ≡ (b'b' ∷ []) ∷ []
unfolding delete_selected_entries text_eq
delete_left = refl

delete_selected_entries-DeleteOutcome_example :
    DeleteOutcome server view (delete_refused server view) (delete_selected_entries server view)
delete_selected_entries-DeleteOutcome_example = delete_selected_entries-DeleteOutcome server view

abbrev into : FileEntry
into = entry b'c' EntryType.dir

drop_left :
    (drop_entries_on_directory server into view.selected_names view).selected_names
    ≡ (b'b' ∷ []) ∷ []
unfolding drop_entries_on_directory text_eq starts_with join_path running_file_task clipboard_item
drop_left = refl
