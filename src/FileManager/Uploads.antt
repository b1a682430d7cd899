-- ===== src/FileManager/Uploads.antt =====
-- The uploads of web/src/pages/FileManager.tsx: startUpload, the handlers of a drop and of the file
-- picker. They run in the closure of a rendering: what a handler reads of the page after an await is what
-- the page was when the handler was called.
use Prim.Native.String.{String}
use omni_store.Common.{
  ℕ, Bool, true, false, not, ◌&&◌, ◌||◌, Option, none, some, List, [], ◌∷◌, length, ◌==◌,
  if◌then◌else◌,
}
use omni_store.Texts.{Text}
use omni_store.Files.{File}
use omni_store.DropFiles.Collect.{
  DroppedUploadKind, DroppedUpload, DataTransfer, is_no_file, collect_dropped_upload,
}
use omni_store.UploadTask.Defs.{
  UploadConflictPolicy, UploadTaskStatus, UploadKind, UploadTaskControllerOptions,
  UploadTaskController,
}
use omni_store.UploadTask.Items.{new_controller}
use omni_store.UploadTask.Control.{start}
use omni_store.FileManager.Defs.{FileManagerView}
use omni_store.FileManager.Actions.{running_file_task}

-- The toasts of the handlers.
pub data UploadMessage : Type 0 where
  read_only busy nothing_to_upload failed : UploadMessage

-- What the closure of a handler holds of the page.
pub record Closure : Type 0 where
  pub source_key : Text
  pub current_path : Text
  pub can_write : Bool
  pub running : Bool

-- A drop whose files are being read.
pub record PendingDrop : Type 0 where
  pub closure : Closure
  pub transfer : DataTransfer

-- `uploads` are the tasks that were started, the latest first: `uploadController.current` is the first of
-- them, and the others cannot be reached any more.
pub record UploadPage (W : Type 0) : Type 0 where
  pub view : FileManagerView W
  pub uploads : List UploadTaskController
  pub folder_upload_mode : Bool
  pub file_drag_active : Bool
  pub reading_dropped_files : Bool
  pub drops : List PendingDrop
  pub messages : List UploadMessage

abbrev pub upload_kind : DroppedUploadKind → UploadKind
upload_kind DroppedUploadKind.file = UploadKind.file
upload_kind DroppedUploadKind.files = UploadKind.files
upload_kind DroppedUploadKind.directory = UploadKind.directory

-- The kind of the files that were chosen in the picker.
unfoldable pub picked_kind : Bool → List File → UploadKind
picked_kind folder files =
    if folder
    then UploadKind.directory
    else if length files == 1
    then UploadKind.file
    else UploadKind.files

abbrev pub shows_running : UploadTaskStatus → Bool
shows_running UploadTaskStatus.running = true
shows_running _ = false

-- `to_string` gives the key of the source as a native String, which the task has.
abbrev pub options_of :
    (Text → String) → Closure → List File → UploadKind → UploadTaskControllerOptions
options_of to_string k files kind = record {
  source_key = to_string k.source_key;
  target_path = k.current_path;
  files = files;
  kind = kind;
  conflict_policy = UploadConflictPolicy.ask;
  concurrency = some 4;
  has_resolver = true;
}

module _ {W : Type 0} where
  abbrev pub closure_of : UploadPage W → Closure
  closure_of p = record {
    source_key = p.view.source_key;
    current_path = p.view.current_path;
    can_write = p.view.can_write;
    running = running_file_task p.view;
  }

  abbrev pub toast : UploadMessage → UploadPage W → UploadPage W
  toast m p = record p { messages = m ∷ p.messages }

  -- handleDrop up to its await, in a closure; the second argument is whether files are dropped.
  unfoldable pub drop_in : Closure → Bool → DataTransfer → UploadPage W → UploadPage W
  drop_in k has_files transfer p =
      let ended = record p { file_drag_active = false } in
      if not has_files
      then p
      else if not k.can_write
      then toast UploadMessage.read_only ended
      else if k.running
      then toast UploadMessage.busy ended
      else record ended {
        reading_dropped_files = true;
        drops = record { closure = k; transfer = transfer } ∷ p.drops;
      }

  unfoldable pub handle_drop : Bool → DataTransfer → UploadPage W → UploadPage W
  unfolding drop_in
  handle_drop has_files transfer p = drop_in (closure_of p) has_files transfer p

  -- `new_id n k` is the k-th identifier that the n-th task makes.
  module _ (new_id : ℕ → ℕ → String) (to_string : Text → String) where
    -- `onChange` shows the snapshots of the task: what start emits before its first await.
    abbrev pub begin_task : UploadTaskController → UploadPage W → UploadPage W
    begin_task c p = record p {
      view = record (p.view) { upload_running = shows_running c.status };
      uploads = c ∷ p.uploads;
      folder_upload_mode = false;
    }

    unfoldable pub start_upload : Closure → List File → UploadKind → UploadPage W → UploadPage W
    start_upload k files kind p =
        if is_no_file files
        then p
        else if not k.can_write
        then toast UploadMessage.read_only p
        else if k.running
        then toast UploadMessage.busy p
        else begin_task
            (start (new_controller (new_id (length p.uploads)) (options_of to_string k files kind)))
            p

    -- The rest of handleDrop, once collectDroppedUpload has settled.
    unfoldable pub finish_drop : Closure → Option DroppedUpload → UploadPage W → UploadPage W
    unfolding start_upload
    finish_drop k none p = record (toast UploadMessage.failed p) { reading_dropped_files = false }
    finish_drop k (some d) p =
        if is_no_file d.files
        then record (toast UploadMessage.nothing_to_upload p) { reading_dropped_files = false }
        else record (start_upload k d.files (upload_kind d.kind) p) {
          reading_dropped_files = false;
        }

    unfoldable pub drop_read : (Text → Text → Bool) → PendingDrop → UploadPage W → UploadPage W
    unfolding finish_drop
    drop_read at_most d p = finish_drop d.closure (collect_dropped_upload at_most d.transfer) p

    -- The files that the picker gives.
    unfoldable pub pick_files : List File → UploadPage W → UploadPage W
    unfolding start_upload picked_kind
    pick_files files p =
        start_upload (closure_of p) files (picked_kind p.folder_upload_mode files) p

  -- When a task that was started has come to its end, the lists of its source are fetched again.
  abbrev pub task_over : Closure → UploadPage W → UploadPage W
  task_over k p = record p {
    view = record (p.view) { refreshed = (k.source_key ∷ []) ∷ p.view.refreshed };
  }

  unfoldable pub handle_drag_enter : Bool → UploadPage W → UploadPage W
  handle_drag_enter has_files p =
      if has_files && p.view.can_write then record p { file_drag_active = true } else p

  -- The first argument is whether the pointer went to a part of the page's surface.
  unfoldable pub handle_drag_leave : Bool → UploadPage W → UploadPage W
  handle_drag_leave inside p =
      if not p.file_drag_active || inside then p else record p { file_drag_active = false }
