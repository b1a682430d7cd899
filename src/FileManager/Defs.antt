-- ===== src/FileManager/Defs.antt =====
-- The data of web/src/pages/FileManager.tsx: entries, the clipboard, the tasks that it shows, and the
-- requests that it makes.
use Prim.Native.String.{String}
use omni_store.Common.{ℕ, Bool, true, false, Option, none, some, List, [], any}
use omni_store.Texts.{Text, text_eq}

pub data EntryType : Type 0 where
  dir file unsupported : EntryType

pub record FileEntry : Type 0 where
  pub name : Text
  pub type : EntryType
  pub size : ℕ
  pub mtime : Text

pub data FileClipboardOperation : Type 0 where
  copy cut : FileClipboardOperation

-- `is_dir` is whether the type is 'dir'; the other type is 'file'.
pub record FileClipboardItem : Type 0 where
  pub id : Text
  pub source_key : Text
  pub source_name : Text
  pub path : Text
  pub name : Text
  pub is_dir : Bool

pub record FileClipboard : Type 0 where
  pub operation : Option FileClipboardOperation
  pub items : List FileClipboardItem

-- The calls of copyFile, moveFile and deleteFile: the item's source and path, then those of the target.
pub data Request : Type 0 where
  copy_file move_file : Text → Text → Text → Text → Request
  delete_file : Text → Text → Request

-- What the call comes to: it succeeds, it throws an ApiRequestError, or it throws something else.
pub data Reply : Type 0 where
  done : Reply
  api_error : String → Reply
  other_error : Reply

pub data TaskStatus : Type 0 where
  running completed completed_with_errors : TaskStatus

-- PasteTaskSnapshot and BatchDeleteTaskSnapshot, the second of which has no operation, action and
-- target. An error is the name of the item and the message.
pub record PasteTaskSnapshot : Type 0 where
  pub status : TaskStatus
  pub operation : FileClipboardOperation
  pub is_drag : Bool
  pub total : ℕ
  pub completed : ℕ
  pub failed : ℕ
  pub current : Text
  pub target_path : Text
  pub errors : List (Text × String)

pub record BatchDeleteTaskSnapshot : Type 0 where
  pub status : TaskStatus
  pub total : ℕ
  pub completed : ℕ
  pub failed : ℕ
  pub current : Text
  pub errors : List (Text × String)

-- What the actions of the view read and write. The entries are those that the filter shows; `sent` are
-- the requests made, and `refreshed` the arguments of `refresh`, the latest first.
pub record FileManagerView (W : Type 0) : Type 0 where
  pub source_key : Text
  pub source_name : Text
  pub current_path : Text
  pub can_write : Bool
  pub entries : List FileEntry
  pub selected_names : List Text
  pub clipboard : FileClipboard
  pub upload_running : Bool
  pub archive_downloading : Bool
  pub paste_task : Option PasteTaskSnapshot
  pub batch_delete_task : Option BatchDeleteTaskSnapshot
  pub sent : List Request
  pub refreshed : List (List Text)
  pub world : W

abbrev pub is_running : TaskStatus → Bool
is_running TaskStatus.running = true
is_running _ = false

abbrev pub is_supported : EntryType → Bool
is_supported EntryType.unsupported = false
is_supported _ = true

abbrev pub is_directory : EntryType → Bool
is_directory EntryType.dir = true
is_directory _ = false

-- Membership in a `Set<string>`.
abbrev pub has_name : List Text → Text → Bool
has_name names name = any (λ n. text_eq n name) names

abbrev pub copy_to_clipboard : List FileClipboardItem → FileClipboard
copy_to_clipboard items = record { operation = some FileClipboardOperation.copy; items = items }

abbrev pub cut_to_clipboard : List FileClipboardItem → FileClipboard
cut_to_clipboard items = record { operation = some FileClipboardOperation.cut; items = items }

abbrev pub clear_clipboard : FileClipboard
clear_clipboard = record { operation = none; items = [] }
