-- ===== src/UploadTask/Items.antt =====
-- web/src/utils/uploadTask.ts: the tests on items, getSnapshot, emit and the constructor.
use Prim.Native.String.{String}
use omni_store.Common.{
  ℕ, suc, Bool, true, false, Option, none, some, List, [], ◌∷◌, map, length, tally, sum_by, min,
  max,
}
use omni_store.Files.{File, upload_relative_path}
use omni_store.UploadTask.Defs.{
  UploadItemStatus, UploadTaskStatus, UploadTaskItem, UploadTaskControllerOptions,
  UploadTaskSnapshot, Frame, no_frame, awaiting_uploader, awaiting_retry, awaiting_decision, Slot,
  idle, UploadTaskController,
}

abbrev pub is_queued : UploadItemStatus → Bool
is_queued UploadItemStatus.queued = true
is_queued _ = false

abbrev pub is_uploading : UploadItemStatus → Bool
is_uploading UploadItemStatus.uploading = true
is_uploading _ = false

abbrev pub is_succeeded : UploadItemStatus → Bool
is_succeeded UploadItemStatus.succeeded = true
is_succeeded _ = false

abbrev pub is_failed : UploadItemStatus → Bool
is_failed UploadItemStatus.failed = true
is_failed _ = false

abbrev pub is_skipped : UploadItemStatus → Bool
is_skipped UploadItemStatus.skipped = true
is_skipped _ = false

-- Whether a call of `uploadItem` holds the item.
abbrev pub is_held : Frame → Bool
is_held no_frame = false
is_held awaiting_uploader = true
is_held awaiting_retry = true
is_held (awaiting_decision _) = true

abbrev pub slot_item : Slot → UploadTaskItem
slot_item s = s.item

abbrev pub slot_held : Slot → Bool
slot_held s = is_held s.frame

abbrev pub slot_queued : Slot → Bool
slot_queued s = is_queued s.item.status

abbrev pub slot_uploading : Slot → Bool
slot_uploading s = is_uploading s.item.status

abbrev pub slot_failed : Slot → Bool
slot_failed s = is_failed s.item.status

unfoldable pub get_snapshot : UploadTaskController → UploadTaskSnapshot
get_snapshot c = record {
  id = c.task_id;
  source_key = c.options.source_key;
  target_path = c.options.target_path;
  kind = c.options.kind;
  conflict_policy = c.options.conflict_policy;
  status = c.status;
  total_files = length c.items;
  completed_files = tally (λ s. is_succeeded s.item.status) c.items;
  failed_files = tally (λ s. is_failed s.item.status) c.items;
  skipped_files = tally (λ s. is_skipped s.item.status) c.items;
  total_bytes = sum_by (λ s. s.item.size) c.items;
  uploaded_bytes = sum_by (λ s. s.item.uploaded_bytes) c.items;
  items = map slot_item c.items;
}

-- `onChange` is called with a copy of the items, so the snapshots that it got do not change later.
unfoldable pub emit : UploadTaskController → UploadTaskController
unfolding get_snapshot
emit c = record c { emitted = get_snapshot c ∷ c.emitted }

-- `new_id n` is the result of the n-th call of `newID()`. The identifiers are taken to be distinct
-- (`crypto.randomUUID`), so the map of abort controllers has one entry for each held item.
module _ (new_id : ℕ → String) where
  unfoldable pub new_items : ℕ → List File → List Slot
  new_items n [] = []
  new_items n (file ∷ files) =
      record {
        item = record {
          id = new_id n;
          file = file;
          relative_path = upload_relative_path file;
          size = file.size;
          uploaded_bytes = 0;
          status = UploadItemStatus.queued;
          error = none;
        };
        frame = no_frame;
        aborted = false;
      }
      ∷ new_items (suc n) files

  -- `options.concurrency ?? 4`.
  unfoldable pub concurrency_or_default : Option ℕ → ℕ
  concurrency_or_default none = 4
  concurrency_or_default (some n) = n

  -- `new UploadTaskController(options)`: the identifier of the task is made first.
  unfoldable pub new_controller : UploadTaskControllerOptions → UploadTaskController
  unfolding new_items concurrency_or_default
  new_controller options = record {
    options = options;
    items = new_items 1 options.files;
    concurrency = max 1 (min (concurrency_or_default options.concurrency) 8);
    task_id = new_id 0;
    conflict_decision = none;
    conflict_decision_promise = none;
    cancel_requested = false;
    running = idle;
    status = UploadTaskStatus.queued;
    next_index = 0;
    workers = 0;
    ready = 0;
    returned = 0;
    emitted = [];
    calls = [];
    asked = 0;
  }
