-- ===== src/FileManager/DropExamples.antt =====
-- A file is dropped on an idle page, and while it is read another task is started there.
use Prim.Native.String.{String}
use omni_store.Common.{ℕ, Bool, true, false, none, some, [], ◌∷◌, ◌≡◌, refl}
use omni_store.Texts.{Text, slash}
use omni_store.Files.{File, upload_relative_path}
use omni_store.DropFiles.Collect.{
  DroppedUploadKind, DroppedUpload, DataTransfer, collect_dropped_upload,
}
use omni_store.UploadTask.Defs.{UploadKind}
use omni_store.FileManager.Defs.{FileManagerView, clear_clipboard}
use omni_store.FileManager.Actions.{running_file_task}
use omni_store.FileManager.Uploads.{UploadPage, closure_of, options_of, handle_drop, drop_read}
use omni_store.FileManager.Dropping.{Started, drop_read-Started}

abbrev quiet_view : FileManagerView ℕ
quiet_view = record {
  source_key = b'k' ∷ [];
  source_name = b'K' ∷ [];
  current_path = slash ∷ [];
  can_write = true;
  entries = [];
  selected_names = [];
  clipboard = clear_clipboard;
  upload_running = false;
  archive_downloading = false;
  paste_task = none;
  batch_delete_task = none;
  sent = [];
  refreshed = [];
  world = 0;
}

abbrev page : UploadPage ℕ
page = record {
  view = quiet_view;
  uploads = [];
  folder_upload_mode = false;
  file_drag_active = true;
  reading_dropped_files = false;
  drops = [];
  messages = [];
}

-- The same page with another upload that is running.
abbrev busy_page : UploadPage ℕ
busy_page = record page { view = record quiet_view { upload_running = true } }

abbrev note : File
note = record { file_id = 1; name = b'a' ∷ []; webkit_relative_path = []; size = 3 }

abbrev drag : DataTransfer
drag = record { items = []; files = note ∷ [] }

abbrev dropped : DroppedUpload
dropped = record { files = note ∷ []; kind = DroppedUploadKind.file }

abbrev any_order : Text → Text → Bool
any_order s t = true

abbrev no_ids : ℕ → ℕ → String
no_ids n k = ""

abbrev no_key : Text → String
no_key s = ""

transfer_read : collect_dropped_upload any_order drag ≡ some dropped
unfolding collect_dropped_upload upload_relative_path
transfer_read = refl

drop_read-Started_example :
    ((handle_drop true drag page).drops
      ≡ record { closure = closure_of page; transfer = drag } ∷ [])
    × Started
        (no_ids 0)
        (options_of no_key (closure_of page) (note ∷ []) UploadKind.file)
        busy_page
        (drop_read no_ids no_key any_order
          (record { closure = closure_of page; transfer = drag })
          busy_page)
drop_read-Started_example =
    drop_read-Started no_ids no_key any_order page busy_page drag dropped refl
      (unfold running_file_task in refl) transfer_read refl
