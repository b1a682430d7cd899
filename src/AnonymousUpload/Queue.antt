-- ===== src/AnonymousUpload/Queue.antt =====
-- The queue of uploads of web/src/pages/AnonymousUpload.tsx: addFiles, pumpUploadQueue, and what comes
-- when an upload is answered.
use Prim.Native.String.{String}
use mathlib.Core.Option.{get_or}
use omni_store.Common.{
  ℕ, suc, ◌+◌, ◌-◌, ◌||◌, not, Option, none, some, List, [], ◌∷◌, ◌++◌, map, keep, get_elem?,
  modify_at, length, ltb, ◌==◌, if◌then◌else◌,
}
use omni_store.Texts.{Text}
use omni_store.Uri.Bytes.{is_nil}
use omni_store.AnonymousUpload.{
  UploadState, ImageFile, refused, UploadItem, AnonymousStatus, max_concurrent_uploads, file_error,
  state_of, state_queued,
}

-- What a call of uploadAnonymousImage comes to: the URL, or an error.
pub data Answer : Type 0 where
  uploaded : Text → Answer
  failed : Option String → Answer

-- Where a call is: waiting for its answer, answered (`finally` is still to come), or over.
pub data CallPhase : Type 0 where
  pending answered over : CallPhase

pub record UploadCall : Type 0 where
  pub item : UploadItem
  pub phase : CallPhase

-- `items` as they are shown, `uploadQueueRef`, `activeUploadCountRef`, how many identifiers were made,
-- and the calls of uploadAnonymousImage, the first one first.
pub record AnonymousUploads : Type 0 where
  pub items : List UploadItem
  pub queue : List UploadItem
  pub active : ℕ
  pub made : ℕ
  pub calls : List UploadCall

abbrev pub no_uploads : AnonymousUploads
no_uploads = record { items = []; queue = []; active = 0; made = 0; calls = [] }

-- `updateItem`: every item with the identifier is changed.
abbrev pub patch_item : ℕ → (UploadItem → UploadItem) → UploadItem → UploadItem
patch_item id f item = if item.id == id then f item else item

abbrev pub update_item : ℕ → (UploadItem → UploadItem) → AnonymousUploads → AnonymousUploads
update_item id f s = record s { items = map (patch_item id f) s.items }

abbrev pub set_uploading : UploadItem → UploadItem
set_uploading item = record item { state = UploadState.uploading }

abbrev pub apply_answer : Answer → UploadItem → UploadItem
apply_answer (uploaded url) item = record item { state = UploadState.success; url = some url }
apply_answer (failed e) item = record item { state = UploadState.error; error = some (refused e) }

-- One round of the loop of pumpUploadQueue for an item that was taken from the queue.
abbrev pub launch_upload : UploadItem → AnonymousUploads → AnonymousUploads
launch_upload item s = record (update_item item.id set_uploading s) {
  active = s.active + 1;
  calls = s.calls ++ (record { item = item; phase = pending } ∷ []);
}

-- pumpUploadQueue, with the queue as the first argument.
unfoldable pub pump_from : List UploadItem → AnonymousUploads → AnonymousUploads
pump_from [] s = record s { queue = [] }
pump_from (item ∷ rest) s =
    let pumped = pump_from rest (launch_upload item s) in
    if ltb s.active max_concurrent_uploads then pumped else record s { queue = item ∷ rest }

unfoldable pub pump : AnonymousUploads → AnonymousUploads
unfolding pump_from
pump s = pump_from s.queue s

unfoldable pub next_items : AnonymousStatus → ℕ → List ImageFile → List UploadItem
unfolding file_error
next_items status n [] = []
next_items status n (f ∷ files) =
    let e = file_error status f in
    record { id = n; file = f; state = state_of e; url = none; error = e }
    ∷ next_items status (suc n) files

-- The items that can be uploaded.
abbrev pub valid_items : List UploadItem → List UploadItem
valid_items next = keep (λ item. state_queued item.state) next

abbrev pub shown_first : List UploadItem → AnonymousUploads → AnonymousUploads
shown_first next s = record s { items = next ++ s.items; made = s.made + length next }

abbrev pub queue_last : List UploadItem → AnonymousUploads → AnonymousUploads
queue_last valid s = record s { queue = s.queue ++ valid }

-- addFiles, once it is clear that there is something to add.
unfoldable pub enqueue : List UploadItem → AnonymousUploads → AnonymousUploads
unfolding pump
enqueue next s =
    let shown = shown_first next s in
    if is_nil (valid_items next) then shown else pump (queue_last (valid_items next) shown)

unfoldable pub add_files : AnonymousStatus → List ImageFile → AnonymousUploads → AnonymousUploads
unfolding enqueue next_items
add_files status files s =
    if not status.enabled || is_nil files then s else enqueue (next_items status s.made files) s

abbrev pub end_call : CallPhase → UploadCall → UploadCall
end_call p k = record k { phase = p }

-- Files are added; the promise of a call settles, and its then or catch runs; its finally runs.
pub data QueueEvent : Type 0 where
  add : AnonymousStatus → List ImageFile → QueueEvent
  settles : ℕ → Answer → QueueEvent
  finally : ℕ → QueueEvent

unfoldable pub settle_call :
    ℕ → Answer → CallPhase → UploadItem → AnonymousUploads → Option AnonymousUploads
settle_call i a pending item s = some (record (update_item item.id (apply_answer a) s) {
  calls = modify_at (end_call answered) i s.calls;
})
settle_call i a _ item s = none

abbrev pub freed : ℕ → AnonymousUploads → AnonymousUploads
freed i s = record s { active = s.active - 1; calls = modify_at (end_call over) i s.calls }

unfoldable pub release : ℕ → CallPhase → AnonymousUploads → Option AnonymousUploads
unfolding pump
release i answered s = some (pump (freed i s))
release i _ s = none

abbrev pub at_call :
    Option UploadCall → (UploadCall → Option AnonymousUploads) → Option AnonymousUploads
at_call none k = none
at_call (some c) k = k c

unfoldable pub queue_step : AnonymousUploads → QueueEvent → Option AnonymousUploads
unfolding add_files settle_call release
queue_step s (add status files) = some (add_files status files s)
queue_step s (settles i a) = at_call (get_elem? s.calls i) (λ k. settle_call i a k.phase k.item s)
queue_step s (finally i) = at_call (get_elem? s.calls i) (λ k. release i k.phase s)

-- The events in turn, those that cannot come being passed over.
unfoldable pub play : AnonymousUploads → List QueueEvent → AnonymousUploads
unfolding queue_step
play s [] = s
play s (e ∷ es) = play (get_or (queue_step s e) s) es
