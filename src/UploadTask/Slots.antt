-- ===== src/UploadTask/Slots.antt =====
-- What holds of every item of web/src/utils/uploadTask.ts between two stretches of code.
use omni_store.Common.{
  ℕ, Bool, true, false, ◌&&◌, not, Option, none, some, map, get_elem?, get_elem?-map, if◌then◌else◌,
  All, All-modify_at, All-get_elem?, All-map, ◌≡◌, refl, arith, Option-cases, inl, inr,
}
use omni_store.UploadTask.Defs.{
  UploadConflictDecision, UploadTaskItem, UploadError, Outcome, resolved, rejected, Frame,
  awaiting_retry, awaiting_decision, Slot, UploadTaskController,
}
use omni_store.UploadTask.Items.{is_uploading, is_succeeded, is_failed, slot_held, slot_queued}
use omni_store.UploadTask.Control.{
  update_slot, with_frame, abort_slot, begin_slot, begin_upload, close_slot, finish_upload,
  set_cancelled, set_succeeded, set_skipped, set_failed, share_promise, request_decision,
  receive_decision, settle_upload, apply_decision, settle_retry, cancel_queued, requeue_failed,
  known_decision, cancel,
}

abbrev is_given {ℓ} : {A : Type ℓ} → Option A → Bool
is_given none = false
is_given (some a) = true

-- An item is uploading exactly while a call of `uploadItem` holds it; its bytes are those of its file
-- once it succeeded and none before; it has an error exactly when it failed; and if the task is being
-- cancelled (`k`), the abort controller of the call that holds it is aborted.
pub record SlotOk (k : Bool) (s : Slot) : Type 0 where
  pub held : is_uploading s.item.status ≡ slot_held s
  pub bytes : s.item.uploaded_bytes ≡ (if is_succeeded s.item.status then s.item.size else 0)
  pub error : is_failed s.item.status ≡ is_given s.item.error
  pub abort : (k && (slot_held s && not s.aborted)) ≡ false

abbrev pub SlotsOk : UploadTaskController → Type 0
SlotsOk c = All (SlotOk c.cancel_requested) c.items

begin_slot-SlotOk :
    (k : Bool) (s : Slot) → slot_queued s ≡ true → k ≡ false → SlotOk k s → SlotOk k (begin_slot s)
begin_slot-SlotOk k s q e h = ground arith

close_slot-SlotOk :
    (k : Bool) (s : Slot) (e : UploadError)
    → slot_held s ≡ true
    → SlotOk k s
    → SlotOk k (close_slot set_cancelled s)
      × SlotOk k (close_slot set_succeeded s)
      × SlotOk k (close_slot set_skipped s)
      × SlotOk k (close_slot (set_failed e) s)
close_slot-SlotOk k s e q h = ground arith

abort_slot-SlotOk : (k : Bool) (s : Slot) → SlotOk k s → SlotOk true (abort_slot s)
abort_slot-SlotOk k s h = ground arith

cancel_queued-SlotOk : (k : Bool) (s : Slot) → SlotOk k s → SlotOk k (cancel_queued s)
cancel_queued-SlotOk k s h = ground arith

pub requeue_failed-SlotOk : (k : Bool) (s : Slot) → SlotOk k s → SlotOk k (requeue_failed s)
requeue_failed-SlotOk k s h = ground arith

-- Without a pending cancellation nothing is asked of the abort controllers.
pub uncancelled-SlotOk : (k : Bool) (s : Slot) → SlotOk k s → SlotOk false s
uncancelled-SlotOk k s h = ground arith

with_frame-SlotOk :
    (k : Bool) (f : Frame) (s : Slot)
    → slot_held s ≡ true
    → slot_held (with_frame f s) ≡ true
    → SlotOk k s
    → SlotOk k (with_frame f s)
with_frame-SlotOk k f s q r h = ground arith

-- The operations, one lemma for each.
module _ (c : UploadTaskController) where
  pub begin_upload-SlotsOk :
      (i : ℕ) {s : Slot}
      → get_elem? c.items i ≡ some s
      → slot_queued s ≡ true
      → c.cancel_requested ≡ false
      → SlotsOk c
      → SlotsOk (begin_upload i c)
  unfolding begin_upload
  begin_upload-SlotsOk i {s} g q k h =
      All-modify_at (SlotOk c.cancel_requested) begin_slot i c.items g
        (begin_slot-SlotOk _ s q k (All-get_elem? (SlotOk c.cancel_requested) i c.items g h)) h

  finish_upload-SlotsOk :
      (f : UploadTaskItem → UploadTaskItem) (i : ℕ) {s : Slot}
      → get_elem? c.items i ≡ some s
      → SlotOk c.cancel_requested (close_slot f s)
      → SlotsOk c
      → SlotsOk (finish_upload f i c)
  unfolding finish_upload
  finish_upload-SlotsOk f i g ok h =
      All-modify_at (SlotOk c.cancel_requested) (close_slot f) i c.items g ok h

  with_frame-SlotsOk :
      (f : Frame) (i : ℕ) {s : Slot}
      → get_elem? c.items i ≡ some s
      → slot_held s ≡ true
      → slot_held (with_frame f s) ≡ true
      → SlotsOk c
      → SlotsOk (update_slot (with_frame f) i c)
  with_frame-SlotsOk f i {s} g q r h =
      All-modify_at (SlotOk c.cancel_requested) (with_frame f) i c.items g
        (with_frame-SlotOk _ f s q r (All-get_elem? (SlotOk c.cancel_requested) i c.items g h)) h

  share_promise-SlotsOk : SlotsOk c → SlotsOk (share_promise c)
  unfolding share_promise
  share_promise-SlotsOk h = ground arith

  pub cancel-SlotsOk : SlotsOk c → SlotsOk (cancel c)
  unfolding cancel
  cancel-SlotsOk h = ground (
    arith,
    All-map (SlotOk c.cancel_requested) (SlotOk true) abort_slot (map cancel_queued c.items)
        (abort_slot-SlotOk c.cancel_requested)
        (All-map (SlotOk c.cancel_requested) (SlotOk c.cancel_requested) cancel_queued c.items
          (cancel_queued-SlotOk c.cancel_requested) h),
  )

  finish_uploads-SlotsOk :
      (i : ℕ) (e : UploadError) {s : Slot}
      → get_elem? c.items i ≡ some s
      → slot_held s ≡ true
      → SlotsOk c
      → SlotsOk (finish_upload set_cancelled i c)
        × SlotsOk (finish_upload set_succeeded i c)
        × SlotsOk (finish_upload set_skipped i c)
        × SlotsOk (finish_upload (set_failed e) i c)
  finish_uploads-SlotsOk i e {s} g q h =
      let (a, b, d, f) =
        close_slot-SlotOk c.cancel_requested s e q
          (All-get_elem? (SlotOk c.cancel_requested) i c.items g h) in
      (
        finish_upload-SlotsOk set_cancelled i g a h,
        finish_upload-SlotsOk set_succeeded i g b h,
        finish_upload-SlotsOk set_skipped i g d h,
        finish_upload-SlotsOk (set_failed e) i g f h,
      )

abbrev pub no_error : UploadError
no_error = record { name = none; code = none; message = none }

module _ (c : UploadTaskController) (i : ℕ) {s : Slot} (g : get_elem? c.items i ≡ some s)
    (q : slot_held s ≡ true) (h : SlotsOk c) where
  request_decision-SlotsOk : SlotsOk (request_decision i c)
  unfolding request_decision
  request_decision-SlotsOk =
      elim (Option-cases (known_decision c.options.conflict_policy c.conflict_decision)) [
        | inl unknown ↦
            rw (unknown, request_decision)
              (share_promise-SlotsOk (update_slot (with_frame (awaiting_decision none)) i c)
                (with_frame-SlotsOk c (awaiting_decision none) i g q refl h))
        | inr (d, known) ↦
            rw (known, request_decision)
              (with_frame-SlotsOk c (awaiting_decision (some d)) i g q refl h)
      ]

  pub receive_decision-SlotsOk : (d : UploadConflictDecision) → SlotsOk (receive_decision i d c)
  unfolding receive_decision
  receive_decision-SlotsOk UploadConflictDecision.cancel =
      with_frame-SlotsOk c (awaiting_decision (some UploadConflictDecision.cancel)) i g q refl h
  receive_decision-SlotsOk d = with_frame-SlotsOk c (awaiting_decision (some d)) i g q refl h

  pub settle_upload-SlotsOk : (o : Outcome) → SlotsOk (settle_upload i o c)
  unfolding settle_upload
  settle_upload-SlotsOk resolved =
      let (a, b, d, f) = finish_uploads-SlotsOk c i no_error g q h in ground arith
  settle_upload-SlotsOk (rejected e) =
      let (a, b, d, f) = finish_uploads-SlotsOk c i e g q h in
      ground (arith, request_decision-SlotsOk)

  pub settle_retry-SlotsOk : (o : Outcome) → SlotsOk (settle_retry i o c)
  unfolding settle_retry
  settle_retry-SlotsOk resolved =
      let (a, b, d, f) = finish_uploads-SlotsOk c i no_error g q h in ground arith
  settle_retry-SlotsOk (rejected e) =
      let (a, b, d, f) = finish_uploads-SlotsOk c i e g q h in ground arith

  pub apply_decision-SlotsOk : (d : UploadConflictDecision) → SlotsOk (apply_decision i d c)
  unfolding apply_decision
  apply_decision-SlotsOk UploadConflictDecision.skip = (finish_uploads-SlotsOk c i no_error g q h).2
  apply_decision-SlotsOk UploadConflictDecision.cancel =
      (finish_uploads-SlotsOk (record c { cancel_requested = true; items = map abort_slot c.items })
        i no_error (get_elem?-map abort_slot i c.items g) (ground arith)
        (All-map (SlotOk c.cancel_requested) (SlotOk true) abort_slot c.items
          (abort_slot-SlotOk c.cancel_requested) h)).0
  apply_decision-SlotsOk UploadConflictDecision.overwrite =
      with_frame-SlotsOk c awaiting_retry i g q refl h
