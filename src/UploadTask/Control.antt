-- ===== src/UploadTask/Control.antt =====
-- web/src/utils/uploadTask.ts: cancel, retryFailed, start, run, uploadItem and conflictDecisionFor,
-- each cut at its awaits.
use omni_store.Common.{
  ℕ, zero, suc, ◌+◌, ◌-◌, Bool, true, false, ◌||◌, Option, none, some, List, [], ◌∷◌, map, length,
  modify_at, drop, any, min, if◌then◌else◌,
}
use omni_store.UploadTask.Defs.{
  UploadConflictPolicy, UploadConflictDecision, UploadItemStatus, UploadTaskStatus, UploadTaskItem,
  UploadError, Outcome, resolved, rejected, Frame, no_frame, awaiting_uploader, awaiting_retry,
  awaiting_decision, Slot, RunPhase, idle, active, ended, UploadTaskController, error_message,
  is_already_exists, is_abort,
}
use omni_store.UploadTask.Items.{slot_held, slot_queued, slot_uploading, slot_failed, emit}

abbrev pub update_slot : (Slot → Slot) → ℕ → UploadTaskController → UploadTaskController
update_slot f i c = record c { items = modify_at f i c.items }

-- The item of a slot with another status, and the frame left as it is.
abbrev pub with_status : UploadItemStatus → Slot → Slot
with_status st s = record s { item = record (s.item) { status = st } }

abbrev pub with_frame : Frame → Slot → Slot
with_frame f s = record s { frame = f }

-- `for (const controller of this.abortControllers.values()) controller.abort()`.
abbrev pub abort_slot : Slot → Slot
abort_slot s = if slot_held s then record s { aborted = true } else s

-- A call of the uploader is made for the item at an index.
abbrev pub call_uploader : ℕ → Bool → UploadTaskController → UploadTaskController
call_uploader i over c = record c { calls = record { index = i; overwrite = over } ∷ c.calls }

abbrev pub is_overwrite : UploadConflictPolicy → Bool
is_overwrite UploadConflictPolicy.overwrite = true
is_overwrite _ = false

-- The start of `uploadItem`, up to the first await.
abbrev pub begin_slot : Slot → Slot
begin_slot s = record {
  item = record (s.item) { status = UploadItemStatus.uploading; error = none };
  frame = awaiting_uploader;
  aborted = false;
}

unfoldable pub begin_upload : ℕ → UploadTaskController → UploadTaskController
unfolding emit
begin_upload i c =
    call_uploader i (is_overwrite c.options.conflict_policy) (emit (update_slot begin_slot i c))

-- The end of `uploadItem`: what is written to the item, then the `finally` block. The worker goes
-- back to the head of its loop.
abbrev pub close_slot : (UploadTaskItem → UploadTaskItem) → Slot → Slot
close_slot f s = record { item = f s.item; frame = no_frame; aborted = false }

unfoldable pub finish_upload :
    (UploadTaskItem → UploadTaskItem) → ℕ → UploadTaskController → UploadTaskController
unfolding emit
finish_upload f i c =
    emit (record c { items = modify_at (close_slot f) i c.items; ready = c.ready + 1 })

abbrev pub set_cancelled : UploadTaskItem → UploadTaskItem
set_cancelled item = record item { status = UploadItemStatus.cancelled }

abbrev pub set_succeeded : UploadTaskItem → UploadTaskItem
set_succeeded item = record item { uploaded_bytes = item.size; status = UploadItemStatus.succeeded }

abbrev pub set_skipped : UploadTaskItem → UploadTaskItem
set_skipped item = record item { status = UploadItemStatus.skipped; uploaded_bytes = 0 }

abbrev pub set_failed : UploadError → UploadTaskItem → UploadTaskItem
set_failed e item = record item { status = UploadItemStatus.failed; error = some (error_message e) }

-- The decision that `conflictDecisionFor` has without the shared promise.
abbrev pub known_decision :
    UploadConflictPolicy → Option UploadConflictDecision → Option UploadConflictDecision
known_decision UploadConflictPolicy.skip d = some UploadConflictDecision.skip
known_decision UploadConflictPolicy.overwrite d = some UploadConflictDecision.overwrite
known_decision UploadConflictPolicy.ask d = d

-- `if (!this.conflictDecisionPromise) …`: the promise is made once, by `resolveConflict` where it is
-- given, and else it is resolved with 'skip'.
abbrev pub share_when :
    Option (Option UploadConflictDecision) → UploadTaskController → UploadTaskController
share_when (some p) c = c
share_when none c =
    if c.options.has_resolver
    then record c { conflict_decision_promise = some none; asked = c.asked + 1 }
    else record c { conflict_decision_promise = some (some UploadConflictDecision.skip) }

unfoldable pub share_promise : UploadTaskController → UploadTaskController
share_promise c = share_when c.conflict_decision_promise c

-- `conflictDecisionFor`, up to its await.
unfoldable pub request_decision : ℕ → UploadTaskController → UploadTaskController
unfolding share_promise
request_decision i c = elim (known_decision c.options.conflict_policy c.conflict_decision) [
  | some d ↦ update_slot (with_frame (awaiting_decision (some d))) i c
  | none ↦ share_promise (update_slot (with_frame (awaiting_decision none)) i c)
]

-- `conflictDecisionFor` after its await: the shared promise was resolved with `d`.
unfoldable pub receive_decision :
    ℕ → UploadConflictDecision → UploadTaskController → UploadTaskController
receive_decision i UploadConflictDecision.cancel c =
    update_slot (with_frame (awaiting_decision (some UploadConflictDecision.cancel))) i c
receive_decision i d c = record (update_slot (with_frame (awaiting_decision (some d))) i c) {
  conflict_decision = some d;
}

-- `uploadItem` after the first call of the uploader.
unfoldable pub settle_upload : ℕ → Outcome → UploadTaskController → UploadTaskController
unfolding finish_upload request_decision
settle_upload i resolved c =
    if c.cancel_requested then finish_upload set_cancelled i c else finish_upload set_succeeded i c
settle_upload i (rejected e) c =
    if c.cancel_requested || is_abort e
    then finish_upload set_cancelled i c
    else if is_already_exists e
    then request_decision i c
    else finish_upload (set_failed e) i c

-- `uploadItem` after `await this.conflictDecisionFor(item)`.
unfoldable pub apply_decision :
    ℕ → UploadConflictDecision → UploadTaskController → UploadTaskController
unfolding finish_upload
apply_decision i UploadConflictDecision.skip c = finish_upload set_skipped i c
apply_decision i UploadConflictDecision.cancel c =
    finish_upload set_cancelled i
      (record c { cancel_requested = true; items = map abort_slot c.items })
apply_decision i UploadConflictDecision.overwrite c =
    call_uploader i true (update_slot (with_frame awaiting_retry) i c)

-- `uploadItem` after the second call of the uploader.
unfoldable pub settle_retry : ℕ → Outcome → UploadTaskController → UploadTaskController
unfolding finish_upload
settle_retry i resolved c =
    if c.cancel_requested then finish_upload set_cancelled i c else finish_upload set_succeeded i c
settle_retry i (rejected e) c =
    if c.cancel_requested || is_abort e
    then finish_upload set_cancelled i c
    else finish_upload (set_failed e) i c

-- The loop of `takeNext` over the items from index `n` on: the new `nextIndex`, and the item found.
unfoldable pub take_from : ℕ → List Slot → ℕ × Option ℕ
take_from n [] = (n, none)
take_from n (s ∷ rest) =
    let later = take_from (suc n) rest in if slot_queued s then (suc n, some n) else later

-- One round of a worker's loop: it returns, or it takes an item and calls `uploadItem`.
abbrev pub worker_takes : ℕ × Option ℕ → UploadTaskController → UploadTaskController
worker_takes (n, none) c = record c {
  next_index = n;
  ready = c.ready - 1;
  returned = c.returned + 1;
}
worker_takes (n, some i) c = begin_upload i (record c { next_index = n; ready = c.ready - 1 })

unfoldable pub resume_worker : UploadTaskController → UploadTaskController
unfolding take_from begin_upload
resume_worker c =
    if c.cancel_requested
    then record c { ready = c.ready - 1; returned = c.returned + 1 }
    else worker_takes (take_from c.next_index (drop c.next_index c.items)) c

-- The workers are started in turn, each up to its first await.
unfoldable pub start_workers : ℕ → UploadTaskController → UploadTaskController
unfolding resume_worker
start_workers zero c = c
start_workers (suc n) c = start_workers n (resume_worker c)

-- The start of `run`.
unfoldable pub enter_run : UploadTaskController → UploadTaskController
unfolding start_workers
enter_run c =
    let n = min c.concurrency (length c.items) in
    start_workers n
      (record c { running = active; next_index = 0; workers = n; ready = n; returned = 0 })

abbrev pub is_unstarted : UploadTaskStatus → Bool
is_unstarted UploadTaskStatus.queued = true
is_unstarted _ = false

-- `start`, once no run is pending.
unfoldable pub launch : UploadTaskController → UploadTaskController
unfolding emit enter_run
launch c =
    if any slot_queued c.items
    then enter_run (emit (record c { cancel_requested = false; status = UploadTaskStatus.running }))
    else emit (record c {
      status = if is_unstarted c.status then UploadTaskStatus.completed else c.status;
    })

-- `if (this.runningPromise) return …`.
abbrev pub unless_running :
    RunPhase → UploadTaskController → UploadTaskController → UploadTaskController
unless_running idle c u = u
unless_running active c u = c
unless_running ended c u = c

unfoldable pub start : UploadTaskController → UploadTaskController
unfolding launch
start c = unless_running c.running c (launch c)

abbrev pub is_final : UploadTaskStatus → Bool
is_final UploadTaskStatus.completed = true
is_final UploadTaskStatus.completed_with_errors = true
is_final UploadTaskStatus.cancelled = true
is_final _ = false

abbrev pub cancel_queued : Slot → Slot
cancel_queued s = if slot_queued s then with_status UploadItemStatus.cancelled s else s

unfoldable pub cancel : UploadTaskController → UploadTaskController
unfolding emit
cancel c =
    if is_final c.status
    then c
    else emit
        (record c { cancel_requested = true; items = map abort_slot (map cancel_queued c.items) })

abbrev pub requeue_failed : Slot → Slot
requeue_failed s =
    if slot_failed s
    then record s {
      item = record (s.item) { status = UploadItemStatus.queued; uploaded_bytes = 0; error = none };
    }
    else s

-- The state in which `retryFailed` calls `start`.
abbrev pub requeued : UploadTaskController → UploadTaskController
requeued c = emit (record c {
  items = map requeue_failed c.items;
  cancel_requested = false;
  status = UploadTaskStatus.queued;
})

unfoldable pub relaunch : UploadTaskController → UploadTaskController
unfolding emit launch
relaunch c = if any slot_failed c.items then launch (requeued c) else c

unfoldable pub retry_failed : UploadTaskController → UploadTaskController
unfolding relaunch
retry_failed c = unless_running c.running c (relaunch c)

abbrev pub cancel_open : Slot → Slot
cancel_open s =
    if slot_queued s || slot_uploading s then with_status UploadItemStatus.cancelled s else s

-- The end of `run`, once all workers have returned.
unfoldable pub finish_run : UploadTaskController → UploadTaskController
unfolding emit
finish_run c = emit (
    if c.cancel_requested
    then record c {
      items = map cancel_open c.items;
      status = UploadTaskStatus.cancelled;
      running = ended;
    }
    else record c {
      status =
          if any slot_failed c.items
          then UploadTaskStatus.completed_with_errors
          else UploadTaskStatus.completed;
      running = ended;
    })
