-- ===== src/UploadTask/WorkLeft.antt =====
-- What is left to do in a run of web/src/utils/uploadTask.ts, as a number that each stretch of its code
-- makes smaller.
use omni_store.Common.{
  ℕ, ◌+◌, ◌≤◌, ◌<◌, true, false, ◌||◌, none, some, map, get_elem?, sum_by, sum_by-modify_at,
  sum_by-map-le, get_elem?-map, ◌∙◌, if_ind, if◌then◌else◌, ◌≡◌, refl, ap, arith, Option-cases, inl,
  inr,
}
use omni_store.UploadTask.Defs.{
  UploadConflictDecision, UploadTaskItem, UploadError, Outcome, resolved, rejected, Frame, no_frame,
  awaiting_uploader, awaiting_retry, awaiting_decision, Slot, RunPhase, idle, active, ended,
  UploadTaskController, is_abort, is_already_exists,
}
use omni_store.UploadTask.Items.{is_queued, is_held, slot_held, slot_queued, emit}
use omni_store.UploadTask.Control.{
  update_slot, with_frame, abort_slot, begin_slot, begin_upload, close_slot, finish_upload,
  set_cancelled, set_succeeded, set_skipped, set_failed, known_decision, share_when,
  request_decision, receive_decision, settle_upload, apply_decision, settle_retry, cancel_queued,
  cancel_open, cancel, finish_run, resume_worker, is_final,
}
use omni_store.UploadTask.Taking.{stops, runs_dry, takes, resume_worker-Round}
use omni_store.UploadTask.Pool.{PoolOk, abort_slot_held}
use omni_store.UploadTask.Slots.{no_error}
use omni_store.UploadTask.Consent.{Promise}

abbrev pub frame_weight : Frame → ℕ
frame_weight no_frame = 0
frame_weight awaiting_uploader = 7
frame_weight (awaiting_decision none) = 5
frame_weight (awaiting_decision (some d)) = 4
frame_weight awaiting_retry = 3

abbrev pub slot_weight : Slot → ℕ
slot_weight s = (if slot_queued s then 8 else 0) + frame_weight s.frame

-- A promise that the user has not answered yet.
abbrev pub promise_weight : Promise → ℕ
promise_weight (some none) = 1
promise_weight _ = 0

-- The workers at the head of their loop, and the end of the run.
abbrev pub phase_weight : RunPhase → ℕ → ℕ
phase_weight active n = 2 + n
phase_weight ended n = 1
phase_weight idle n = 0

abbrev pub work_left : UploadTaskController → ℕ
work_left c =
    sum_by slot_weight c.items
    + promise_weight c.conflict_decision_promise
    + phase_weight c.running c.ready

phase_weight-suc : (r : RunPhase) (n : ℕ) → phase_weight r (n + 1) ≤ phase_weight r n + 1
phase_weight-suc active n = omega arith
phase_weight-suc ended n = omega arith
phase_weight-suc idle n = omega arith

held_weight : (f : Frame) → is_held f ≡ true → 3 ≤ frame_weight f
held_weight f h = ground arith

module _ (c : UploadTaskController) (i : ℕ) {s : Slot} (g : get_elem? c.items i ≡ some s) where
  abbrev Less : UploadTaskController → Type 0
  Less u = work_left u < work_left c

  finish_upload-work_left :
      (f : UploadTaskItem → UploadTaskItem)
      → ((item : UploadTaskItem) → is_queued (f item).status ≡ false)
      → slot_held s ≡ true
      → work_left (finish_upload f i c) < work_left c
  unfolding finish_upload emit
  finish_upload-work_left f nq q = ground (
    arith,
    nq s.item,
    sum_by-modify_at slot_weight (close_slot f) i c.items g,
    held_weight s.frame q,
    phase_weight-suc c.running c.ready,
  )

  with_frame-work_left :
      (f : Frame)
      → frame_weight f < frame_weight s.frame
      → work_left (update_slot (with_frame f) i c) < work_left c
  with_frame-work_left f l =
      ground (arith, sum_by-modify_at slot_weight (with_frame f) i c.items g, l)

  share-work_left :
      (p : Promise)
      → c.conflict_decision_promise ≡ p
      → s.frame ≡ awaiting_uploader
      → work_left (share_when p (update_slot (with_frame (awaiting_decision none)) i c))
        < work_left c
  share-work_left (some p) e f = with_frame-work_left (awaiting_decision none) (ground (arith, f))
  share-work_left none e f =
      let r = sum_by-modify_at slot_weight (with_frame (awaiting_decision none)) i c.items g in
      if_ind (λ (u : UploadTaskController). work_left u < work_left c) c.options.has_resolver
        (ground (arith, e, f, r)) (ground (arith, e, f, r))

  request_decision-work_left :
      s.frame ≡ awaiting_uploader → work_left (request_decision i c) < work_left c
  unfolding request_decision
  request_decision-work_left f =
      elim (Option-cases (known_decision c.options.conflict_policy c.conflict_decision)) [
        | inl unknown ↦
            rw (unknown, request_decision) (share-work_left c.conflict_decision_promise refl f)
        | inr (d, known) ↦
            rw (known, request_decision)
              (with_frame-work_left (awaiting_decision (some d)) (ground (arith, f)))
      ]

  finishes-work_left :
      (e : UploadError)
      → slot_held s ≡ true
      → (work_left (finish_upload set_cancelled i c) < work_left c)
        × (work_left (finish_upload set_succeeded i c) < work_left c)
        × (work_left (finish_upload set_skipped i c) < work_left c)
        × (work_left (finish_upload (set_failed e) i c) < work_left c)
  finishes-work_left e q = (
    finish_upload-work_left set_cancelled (λ t. refl) q,
    finish_upload-work_left set_succeeded (λ t. refl) q,
    finish_upload-work_left set_skipped (λ t. refl) q,
    finish_upload-work_left (set_failed e) (λ t. refl) q,
  )

  -- The stretches of `uploadItem` for an item.
  pub settle_upload-work_left :
      (o : Outcome) → s.frame ≡ awaiting_uploader → work_left (settle_upload i o c) < work_left c
  unfolding settle_upload
  settle_upload-work_left resolved f =
      let h = finishes-work_left no_error (ap is_held f) in if_ind Less c.cancel_requested h.0 h.1
  settle_upload-work_left (rejected e) f =
      let h = finishes-work_left e (ap is_held f) in
      if_ind Less (c.cancel_requested || is_abort e) h.0
        (if_ind Less (is_already_exists e) (request_decision-work_left f) h.3)

  pub settle_retry-work_left :
      (o : Outcome) → s.frame ≡ awaiting_retry → work_left (settle_retry i o c) < work_left c
  unfolding settle_retry
  settle_retry-work_left resolved f =
      let h = finishes-work_left no_error (ap is_held f) in if_ind Less c.cancel_requested h.0 h.1
  settle_retry-work_left (rejected e) f =
      let h = finishes-work_left e (ap is_held f) in
      if_ind Less (c.cancel_requested || is_abort e) h.0 h.3

  pub receive_decision-work_left :
      (d : UploadConflictDecision)
      → s.frame ≡ awaiting_decision none
      → work_left (receive_decision i d c) < work_left c
  unfolding receive_decision
  receive_decision-work_left UploadConflictDecision.cancel f =
      with_frame-work_left (awaiting_decision (some UploadConflictDecision.cancel))
        (ground (arith, f))
  receive_decision-work_left d f =
      with_frame-work_left (awaiting_decision (some d)) (ground (arith, f))

abort_slot_weight : (s : Slot) → slot_weight (abort_slot s) ≤ slot_weight s
abort_slot_weight s = ground arith

pub apply_decision-work_left :
    (c : UploadTaskController) (i : ℕ) {s : Slot}
    → get_elem? c.items i ≡ some s
    → (d : UploadConflictDecision) → s.frame ≡ awaiting_decision (some d)
    → work_left (apply_decision i d c) < work_left c
unfolding apply_decision
apply_decision-work_left c i g UploadConflictDecision.skip f =
    (finishes-work_left c i g no_error (ap is_held f)).2
apply_decision-work_left c i {s} g UploadConflictDecision.cancel f =
    let aborted = record c { cancel_requested = true; items = map abort_slot c.items } in
    let h =
      (finishes-work_left aborted i (get_elem?-map abort_slot i c.items g) no_error
        (abort_slot_held s ∙ ap is_held f)).0 in
    omega (arith, h, sum_by-map-le slot_weight abort_slot c.items abort_slot_weight)
apply_decision-work_left c i g UploadConflictDecision.overwrite f =
    with_frame-work_left c i g awaiting_retry (ground (arith, f))

-- A worker's next round.
pub resume_worker-work_left :
    (c : UploadTaskController)
    → c.running ≡ active
    → 0 < c.ready
    → PoolOk c
    → work_left (resume_worker c) < work_left c
unfolding begin_upload emit
resume_worker-work_left c a r p = elim (resume_worker-Round c p.passed) [
  | stops k e ↦ rw e (ground (arith, a))
  | runs_dry m k l q e ↦ rw e (ground (arith, a))
  | takes m i k t e ↦
      rw e
        (ground (arith, a, r, t.queued, sum_by-modify_at slot_weight begin_slot i c.items t.there))
]

cancel_open_weight : (s : Slot) → slot_weight (cancel_open s) ≤ slot_weight s
cancel_open_weight s = ground arith

-- The end of the run.
pub finish_run-work_left :
    (c : UploadTaskController) → c.running ≡ active → work_left (finish_run c) < work_left c
unfolding finish_run emit
finish_run-work_left c a =
    if_ind (λ (u : UploadTaskController). work_left (emit u) < work_left c) c.cancel_requested
      (ground (arith, a, sum_by-map-le slot_weight cancel_open c.items cancel_open_weight))
      (ground (arith, a))

-- A cancellation leaves no more to do than there was.
pub cancel-work_left : (c : UploadTaskController) → work_left (cancel c) ≤ work_left c
unfolding cancel emit
cancel-work_left c =
    let a = sum_by-map-le slot_weight abort_slot (map cancel_queued c.items) abort_slot_weight in
    let b = sum_by-map-le slot_weight cancel_queued c.items (λ s. ground arith) in
    if_ind (λ (u : UploadTaskController). work_left u ≤ work_left c) (is_final c.status)
      (omega arith) (omega (arith, a, b))
