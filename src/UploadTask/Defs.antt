-- ===== src/UploadTask/Defs.antt =====
-- The data of web/src/utils/uploadTask.ts: items, options, snapshots, and the controller's state.
use Prim.Native.String.{String}
use text.Mathlib.Text.{◌==◌ as str_eq}
use omni_store.Common.{ℕ, Bool, false, Option, none, some, List}
use omni_store.Texts.{Text}
use omni_store.Files.{File}

pub data UploadConflictPolicy : Type 0 where
  ask skip overwrite : UploadConflictPolicy

pub data UploadConflictDecision : Type 0 where
  skip overwrite cancel : UploadConflictDecision

pub data UploadItemStatus : Type 0 where
  queued uploading succeeded failed skipped cancelled : UploadItemStatus

pub data UploadTaskStatus : Type 0 where
  queued running completed completed_with_errors cancelled : UploadTaskStatus

pub data UploadKind : Type 0 where
  file files directory : UploadKind

pub record UploadTaskItem : Type 0 where
  pub id : String
  pub file : File
  pub relative_path : Text
  pub size : ℕ
  pub uploaded_bytes : ℕ
  pub status : UploadItemStatus
  pub error : Option String

pub record UploadTaskControllerOptions : Type 0 where
  pub source_key : String
  pub target_path : Text
  pub files : List File
  pub kind : UploadKind
  pub conflict_policy : UploadConflictPolicy
  pub concurrency : Option ℕ
  -- Whether `resolveConflict` is given.
  pub has_resolver : Bool

pub record UploadTaskSnapshot : Type 0 where
  pub id : String
  pub source_key : String
  pub target_path : Text
  pub kind : UploadKind
  pub conflict_policy : UploadConflictPolicy
  pub status : UploadTaskStatus
  pub total_files : ℕ
  pub completed_files : ℕ
  pub failed_files : ℕ
  pub skipped_files : ℕ
  pub total_bytes : ℕ
  pub uploaded_bytes : ℕ
  pub items : List UploadTaskItem

-- What a promise of the uploader was rejected with: the `name` and `code` that it has as an object,
-- and the `message` if it is an `Error`.
pub record UploadError : Type 0 where
  pub name : Option String
  pub code : Option String
  pub message : Option String

pub data Outcome : Type 0 where
  resolved : Outcome
  rejected : UploadError → Outcome

-- Where a call of `uploadItem` waits: for the first call of the uploader, for a conflict decision
-- (`none` while it waits for the shared promise, `some d` when `conflictDecisionFor` returns `d`),
-- or for the second call of the uploader.
pub data Frame : Type 0 where
  no_frame awaiting_uploader awaiting_retry : Frame
  awaiting_decision : Option UploadConflictDecision → Frame

-- An item with the call of `uploadItem` that holds it, and whether the `AbortController` of that
-- call has been aborted.
pub record Slot : Type 0 where
  pub item : UploadTaskItem
  pub frame : Frame
  pub aborted : Bool

-- `runningPromise`: null, the pending run, or the run that has ended before `start` clears it.
pub data RunPhase : Type 0 where
  idle active ended : RunPhase

pub record UploaderCall : Type 0 where
  pub index : ℕ
  pub overwrite : Bool

-- The fields of the class, then what the closures of `run` hold (`nextIndex`, and how many workers
-- stand at the head of their loop or have returned), then the calls made to the environment, the
-- latest first.
pub record UploadTaskController : Type 0 where
  pub options : UploadTaskControllerOptions
  pub items : List Slot
  pub concurrency : ℕ
  pub task_id : String
  pub conflict_decision : Option UploadConflictDecision
  -- `none` is null; `some none` is a promise that is pending.
  pub conflict_decision_promise : Option (Option UploadConflictDecision)
  pub cancel_requested : Bool
  pub running : RunPhase
  pub status : UploadTaskStatus
  pub next_index : ℕ
  pub workers : ℕ
  pub ready : ℕ
  pub returned : ℕ
  pub emitted : List UploadTaskSnapshot
  pub calls : List UploaderCall
  pub asked : ℕ

abbrev pub is_some_text : Option String → String → Bool
is_some_text none k = false
is_some_text (some s) k = str_eq s k

unfoldable pub error_message : UploadError → String
error_message e = elim e.message [ some m ↦ m | none ↦ "上传失败，请重试。" ]

unfoldable pub is_already_exists : UploadError → Bool
is_already_exists e = is_some_text e.code "FILE_ALREADY_EXISTS"

unfoldable pub is_abort : UploadError → Bool
is_abort e = is_some_text e.name "AbortError"
