-- ===== src/UploadTask/Pool.antt =====
-- The workers of a run in web/src/utils/uploadTask.ts: none is lost, and none returns too early.
use mathlib.Core.Logic.{◌⊎◌}
use omni_store.Common.{
  ℕ, ◌+◌, ◌-◌, ◌≤◌, ◌<◌, Bool, true, false, none, some, List, map, length, get_elem?, tally, ◌≡◌,
  refl, arith, tally-modify_at, length-modify_at, Option-cases, if_ind, ◌||◌, ◌∙◌, [], ◌∷◌,
  get_elem?-map, inl, inr, All-get_elem?,
}
use omni_store.UploadTask.Defs.{
  UploadConflictDecision, UploadTaskStatus, UploadTaskItem, UploadError, Outcome, resolved,
  rejected, Frame, awaiting_retry, awaiting_decision, Slot, UploadTaskController, is_abort,
  is_already_exists,
}
use omni_store.UploadTask.Items.{is_queued, slot_held, slot_queued}
use omni_store.UploadTask.Control.{
  update_slot, with_frame, abort_slot, begin_slot, begin_upload, cancel, is_final, close_slot,
  finish_upload, set_cancelled, set_succeeded, set_skipped, set_failed, share_promise,
  known_decision, request_decision, receive_decision, settle_upload, apply_decision, settle_retry,
  cancel_queued, resume_worker,
}
use omni_store.UploadTask.Slots.{SlotOk, SlotsOk, no_error}
use omni_store.UploadTask.Taking.{
  Passed, Taken, stops, runs_dry, takes, resume_worker-Round, Passed-modify_at, Passed-suc,
  Passed-map, Passed-get_elem?,
}

-- Every worker stands at the head of its loop, has returned, or holds an item; the items before
-- `nextIndex` are not queued; and a worker has returned only if the task is being cancelled or there
-- is no item left to take.
pub record PoolOk (c : UploadTaskController) : Type 0 where
  pub status : c.status ≡ UploadTaskStatus.running
  pub counted : c.ready + c.returned + tally slot_held c.items ≡ c.workers
  pub some_worker : 0 < c.workers
  pub few : c.workers ≤ c.concurrency
  pub passed : Passed c.next_index c.items
  pub drained : 0 < c.returned → (c.cancel_requested ≡ true) ⊎ (length c.items ≤ c.next_index)

module _ (c : UploadTaskController) (p : PoolOk c) where
  finish_upload-PoolOk :
      (f : UploadTaskItem → UploadTaskItem) (i : ℕ) {s : Slot}
      → ((item : UploadTaskItem) → is_queued (f item).status ≡ false)
      → get_elem? c.items i ≡ some s
      → slot_held s ≡ true
      → PoolOk (finish_upload f i c)
  unfolding finish_upload
  finish_upload-PoolOk f i {s} nq g q = record {
    status = p.status;
    counted = ground (arith, p.counted, tally-modify_at slot_held (close_slot f) i c.items g);
    some_worker = p.some_worker;
    few = p.few;
    passed = Passed-modify_at (close_slot f) i c.next_index c.items (λ t _. nq t.item) p.passed;
    drained = λ r. rw (length-modify_at (close_slot f) i c.items) (p.drained r);
  }

  with_frame-PoolOk :
      (f : Frame) (i : ℕ) {s : Slot}
      → get_elem? c.items i ≡ some s
      → slot_held s ≡ true
      → slot_held (with_frame f s) ≡ true
      → PoolOk (update_slot (with_frame f) i c)
  with_frame-PoolOk f i {s} g q r = record {
    status = p.status;
    counted = ground (arith, p.counted, tally-modify_at slot_held (with_frame f) i c.items g);
    some_worker = p.some_worker;
    few = p.few;
    passed = Passed-modify_at (with_frame f) i c.next_index c.items (λ t h. h) p.passed;
    drained = λ r. rw (length-modify_at (with_frame f) i c.items) (p.drained r);
  }

  share_promise-PoolOk : PoolOk (share_promise c)
  unfolding share_promise
  share_promise-PoolOk = ground arith

  begin_upload-PoolOk :
      (m i : ℕ)
      → 0 < c.ready
      → (t : Taken c.items m i) → slot_held t.slot ≡ false
      → PoolOk (begin_upload i (record c { next_index = m; ready = c.ready - 1 }))
  unfolding begin_upload
  begin_upload-PoolOk m i r t q = record {
    status = p.status;
    counted = ground (arith, p.counted, tally-modify_at slot_held begin_slot i c.items t.there);
    some_worker = p.some_worker;
    few = p.few;
    passed = rw t.after (Passed-suc begin_slot i c.items (λ s. refl) t.passed);
    drained = λ d. elim (p.drained d) [
      | inl k ↦ inl k
      | inr l ↦
          absurd
            (ground (arith, t.queued, Passed-get_elem? c.next_index i c.items l p.passed t.there))
    ];
  }

not_held : (k : Bool) (s : Slot) → slot_queued s ≡ true → SlotOk k s → slot_held s ≡ false
not_held k s q h = ground arith

-- A worker at the head of its loop takes an item, or returns.
pub resume_worker-PoolOk :
    (c : UploadTaskController) → 0 < c.ready → SlotsOk c → PoolOk c → PoolOk (resume_worker c)
resume_worker-PoolOk c r h p = elim (resume_worker-Round c p.passed) [
  | stops k e ↦ rw e (record {
    status = p.status;
    counted = omega (arith, p.counted);
    some_worker = p.some_worker;
    few = p.few;
    passed = p.passed;
    drained = λ _. inl k;
  })
  | runs_dry m k l q e ↦ rw e (record {
    status = p.status;
    counted = omega (arith, p.counted);
    some_worker = p.some_worker;
    few = p.few;
    passed = q;
    drained = λ _. inr l;
  })
  | takes m i k t e ↦ rw e (
      begin_upload-PoolOk c p m i r t
        (not_held _ _ t.queued (All-get_elem? (SlotOk c.cancel_requested) i c.items t.there h)))
]

module _ (c : UploadTaskController) (i : ℕ) {s : Slot} (g : get_elem? c.items i ≡ some s)
    (q : slot_held s ≡ true) (p : PoolOk c) where
  finishes-PoolOk :
      (e : UploadError)
      → PoolOk (finish_upload set_cancelled i c)
        × PoolOk (finish_upload set_succeeded i c)
        × PoolOk (finish_upload set_skipped i c)
        × PoolOk (finish_upload (set_failed e) i c)
  finishes-PoolOk e = (
    finish_upload-PoolOk c p set_cancelled i (λ t. refl) g q,
    finish_upload-PoolOk c p set_succeeded i (λ t. refl) g q,
    finish_upload-PoolOk c p set_skipped i (λ t. refl) g q,
    finish_upload-PoolOk c p (set_failed e) i (λ t. refl) g q,
  )

  request_decision-PoolOk : PoolOk (request_decision i c)
  unfolding request_decision
  request_decision-PoolOk =
      elim (Option-cases (known_decision c.options.conflict_policy c.conflict_decision)) [
        | inl unknown ↦
            rw (unknown, request_decision)
              (share_promise-PoolOk (update_slot (with_frame (awaiting_decision none)) i c)
                (with_frame-PoolOk c p (awaiting_decision none) i g q refl))
        | inr (d, known) ↦
            rw (known, request_decision)
              (with_frame-PoolOk c p (awaiting_decision (some d)) i g q refl)
      ]

  pub receive_decision-PoolOk : (d : UploadConflictDecision) → PoolOk (receive_decision i d c)
  unfolding receive_decision
  receive_decision-PoolOk UploadConflictDecision.cancel =
      with_frame-PoolOk c p (awaiting_decision (some UploadConflictDecision.cancel)) i g q refl
  receive_decision-PoolOk d =
      let r = with_frame-PoolOk c p (awaiting_decision (some d)) i g q refl in
      record {
        status = r.status;
        counted = r.counted;
        some_worker = r.some_worker;
        few = r.few;
        passed = r.passed;
        drained = r.drained;
      }

  pub settle_upload-PoolOk : (o : Outcome) → PoolOk (settle_upload i o c)
  unfolding settle_upload
  settle_upload-PoolOk resolved =
      if_ind PoolOk c.cancel_requested (finishes-PoolOk no_error).0 (finishes-PoolOk no_error).1
  settle_upload-PoolOk (rejected e) =
      if_ind PoolOk (c.cancel_requested || is_abort e) (finishes-PoolOk e).0
        (if_ind PoolOk (is_already_exists e) request_decision-PoolOk (finishes-PoolOk e).3)

  pub settle_retry-PoolOk : (o : Outcome) → PoolOk (settle_retry i o c)
  unfolding settle_retry
  settle_retry-PoolOk resolved =
      if_ind PoolOk c.cancel_requested (finishes-PoolOk no_error).0 (finishes-PoolOk no_error).1
  settle_retry-PoolOk (rejected e) =
      if_ind PoolOk (c.cancel_requested || is_abort e) (finishes-PoolOk e).0 (finishes-PoolOk e).3

pub tally_held-map :
    (f : Slot → Slot) (xs : List Slot)
    → ((s : Slot) → slot_held (f s) ≡ slot_held s)
    → tally slot_held (map f xs) ≡ tally slot_held xs
tally_held-map f [] h = refl
tally_held-map f (x ∷ xs) h = ground (arith, h x, tally_held-map f xs h)

pub abort_slot_held : (s : Slot) → slot_held (abort_slot s) ≡ slot_held s
abort_slot_held s = ground arith

pub cancel_queued_held : (s : Slot) → slot_held (cancel_queued s) ≡ slot_held s
cancel_queued_held s = ground arith

-- Cancelling sets the flag, and changes neither the frames nor which items are past.
aborted-PoolOk :
    (c : UploadTaskController)
    → PoolOk c
    → PoolOk (record c { cancel_requested = true; items = map abort_slot c.items })
aborted-PoolOk c p = record {
  status = p.status;
  counted = omega (arith, p.counted, tally_held-map abort_slot c.items abort_slot_held);
  some_worker = p.some_worker;
  few = p.few;
  passed = Passed-map abort_slot c.next_index c.items (λ s h. ground arith) p.passed;
  drained = λ _. inl refl;
}

pub cancel-PoolOk : (c : UploadTaskController) → PoolOk c → PoolOk (cancel c)
unfolding cancel
cancel-PoolOk c p = if_ind PoolOk (is_final c.status) p (record {
  status = p.status;
  counted = omega (
    arith,
    p.counted,
    tally_held-map abort_slot (map cancel_queued c.items) abort_slot_held,
    tally_held-map cancel_queued c.items cancel_queued_held,
  );
  some_worker = p.some_worker;
  few = p.few;
  passed =
      Passed-map abort_slot c.next_index (map cancel_queued c.items) (λ s h. ground arith)
        (Passed-map cancel_queued c.next_index c.items (λ s h. ground arith) p.passed);
  drained = λ _. inl refl;
})

pub apply_decision-PoolOk :
    (c : UploadTaskController) (i : ℕ) {s : Slot}
    → get_elem? c.items i ≡ some s
    → slot_held s ≡ true
    → PoolOk c
    → (d : UploadConflictDecision) → PoolOk (apply_decision i d c)
unfolding apply_decision
apply_decision-PoolOk c i g q p UploadConflictDecision.skip = (finishes-PoolOk c i g q p no_error).2
apply_decision-PoolOk c i g q p UploadConflictDecision.cancel =
    (finishes-PoolOk (record c { cancel_requested = true; items = map abort_slot c.items }) i
      (get_elem?-map abort_slot i c.items g) (abort_slot_held _ ∙ q) (aborted-PoolOk c p)
      no_error).0
apply_decision-PoolOk c i g q p UploadConflictDecision.overwrite =
    let r = with_frame-PoolOk c p awaiting_retry i g q refl in
    record {
      status = r.status;
      counted = r.counted;
      some_worker = r.some_worker;
      few = r.few;
      passed = r.passed;
      drained = r.drained;
    }
