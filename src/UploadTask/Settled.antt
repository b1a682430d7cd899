-- ===== src/UploadTask/Settled.antt =====
-- What the user of web/src/utils/uploadTask.ts can rely on: the pool's size, the byte count, what a
-- cancellation reaches, and how a run ends.
use Prim.Native.String.{String}
use mathlib.Core.Path.{subst}
use omni_store.Common.{
  ℕ, ◌+◌, ◌≤◌, ◌<◌, Bool, true, false, some, List, [], ◌∷◌, map, length, tally, sum_by, any,
  if◌then◌else◌, if_split, ◌≡◌, ◌↔◌, refl, ap, arith, All, Bool-cases, inl, inr, ◌==◌, ==_iff,
}
use omni_store.UploadTask.Defs.{
  UploadItemStatus, UploadTaskStatus, Slot, active, UploadTaskControllerOptions,
  UploadTaskController, RunPhase,
}
use omni_store.UploadTask.Items.{
  is_succeeded, is_failed, is_skipped, slot_held, slot_queued, slot_failed, slot_uploading,
  get_snapshot, emit, new_controller,
}
use omni_store.UploadTask.Control.{
  is_final, cancel_open, cancel_queued, abort_slot, finish_run, cancel, resume_worker,
}
use omni_store.UploadTask.Slots.{SlotOk, SlotsOk}
use omni_store.UploadTask.Taking.{Passed-tally}
use omni_store.UploadTask.Pool.{PoolOk}
use omni_store.UploadTask.Steps.{all_returned, finish, step, Reach}
use omni_store.UploadTask.Invariant.{is_active, Inv, returned-quiet}
use omni_store.UploadTask.Reachable.{Reach-Inv, new_controller-Inv}

abbrev is_cancelled : UploadItemStatus → Bool
is_cancelled UploadItemStatus.cancelled = true
is_cancelled _ = false

-- How a run ends: every item has one of the four final states, and the status of the task says
-- whether it was cancelled and whether an item failed.
pub record Settled (was_cancelled : Bool) (u : UploadTaskController) : Type 0 where
  pub none_queued : tally slot_queued u.items ≡ 0
  pub none_uploading : tally slot_uploading u.items ≡ 0
  pub accounted :
      (get_snapshot u).completed_files
        + (get_snapshot u).failed_files
        + (get_snapshot u).skipped_files
        + tally (λ s. is_cancelled s.item.status) u.items
      ≡ (get_snapshot u).total_files
  pub cancelled_iff : (was_cancelled ≡ true) ↔ (u.status ≡ UploadTaskStatus.cancelled)
  pub errors : u.status ≡ UploadTaskStatus.completed_with_errors → 0 < (get_snapshot u).failed_files
  pub clean : u.status ≡ UploadTaskStatus.completed → (get_snapshot u).failed_files ≡ 0

accounted-list :
    (xs : List Slot)
    → tally slot_queued xs ≡ 0
    → tally slot_uploading xs ≡ 0
    → tally (λ s. is_succeeded s.item.status) xs
        + tally (λ s. is_failed s.item.status) xs
        + tally (λ s. is_skipped s.item.status) xs
        + tally (λ s. is_cancelled s.item.status) xs
      ≡ length xs
accounted-list [] q u = refl
accounted-list (x ∷ xs) q u = ground (arith, accounted-list xs (ground arith) (ground arith))

tally-cancel_open :
    (xs : List Slot)
    → (tally slot_queued (map cancel_open xs) ≡ 0) × (tally slot_uploading (map cancel_open xs) ≡ 0)
tally-cancel_open [] = (refl, refl)
tally-cancel_open (x ∷ xs) = let (a, b) = tally-cancel_open xs in ground arith

-- Uploading items are held.
tally-uploading :
    (k : Bool) (xs : List Slot) → All (SlotOk k) xs → tally slot_uploading xs ≡ tally slot_held xs
tally-uploading k [] h = refl
tally-uploading k (x ∷ xs) h = ground (arith, h.0.held, tally-uploading k xs h.1)

any-tally : (p : Slot → Bool) (xs : List Slot) → any p xs ≡ true → 0 < tally p xs
any-tally p [] h = cc
any-tally p (x ∷ xs) h = ground (arith, any-tally p xs)

not-any-tally : (p : Slot → Bool) (xs : List Slot) → any p xs ≡ false → tally p xs ≡ 0
not-any-tally p [] h = refl
not-any-tally p (x ∷ xs) h = ground (arith, not-any-tally p xs)

-- A run that was not cancelled ends with nothing queued.
ran_dry :
    (c : UploadTaskController)
    → PoolOk c
    → c.returned ≡ c.workers
    → c.cancel_requested ≡ false
    → tally slot_queued c.items ≡ 0
ran_dry c p e k = elim (p.drained (omega (arith, p.some_worker))) [
  | inl k' ↦ cc
  | inr l ↦ Passed-tally c.next_index c.items l p.passed
]

finish_run-Settled :
    (c : UploadTaskController)
    → SlotsOk c
    → PoolOk c
    → c.returned ≡ c.workers
    → Settled c.cancel_requested (finish_run c)
unfolding finish_run emit get_snapshot
finish_run-Settled c h p e =
    if_split (λ u. Settled c.cancel_requested (emit u)) c.cancel_requested
      (λ k.
        let (a, b) = tally-cancel_open c.items in
        record {
          none_queued = a;
          none_uploading = b;
          accounted = accounted-list (map cancel_open c.items) a b;
          cancelled_iff = (λ _. refl, λ _. k);
          errors = λ st. cc;
          clean = λ st. cc;
        })
      (λ k.
        let a = ran_dry c p e k in
        let b : tally slot_uploading c.items ≡ 0 =
          omega (arith, tally-uploading c.cancel_requested c.items h, returned-quiet c p e) in
        record {
          none_queued = a;
          none_uploading = b;
          accounted = accounted-list c.items a b;
          cancelled_iff = (λ t. cc, λ st. ground arith);
          errors = λ st. any-tally slot_failed c.items (ground arith);
          clean = λ st. not-any-tally slot_failed c.items (ground arith);
        })

finish-Settled :
    (c u : UploadTaskController) (r : RunPhase)
    → c.running ≡ r
    → Inv c
    → finish r c ≡ some u
    → Settled c.cancel_requested u
unfolding finish
finish-Settled c u active a v h = elim (Bool-cases (c.returned == c.workers)) [
  | inl e ↦
      let same : finish_run c ≡ u = ground arith in
      subst (Settled c.cancel_requested) same
        (finish_run-Settled c v.slots (v.pool (ap is_active a)) ((==_iff _ _).0 e))
  | inr e ↦ absurd (ground arith)
]
finish-Settled c u _ a v h = cc

module _ (new_id : ℕ → String) (options : UploadTaskControllerOptions) where
  -- When the workers of a run have all returned and `run` goes on, in any state that a new controller
  -- reaches: no item is queued or uploading; the succeeded, failed, skipped and cancelled items make
  -- up all files; the task is 'cancelled' exactly if a cancellation was requested; it is
  -- 'completed_with_errors' only if an item failed, and 'completed' only if none did.
  pub all_returned-Settled :
      (c u : UploadTaskController)
      → Reach (new_controller new_id options) c
      → step c all_returned ≡ some u
      → Settled c.cancel_requested u
  unfolding step
  all_returned-Settled c u r h =
      finish-Settled c u c.running refl (Reach-Inv (new_controller-Inv new_id options) r) h

  -- At most 8 items, and at most as many as the options allow, are uploading at a time.
  pub uploading-le_concurrency :
      (c : UploadTaskController)
      → Reach (new_controller new_id options) c
      → (tally slot_uploading c.items ≤ c.concurrency) × (tally slot_uploading c.items ≤ 8)
  uploading-le_concurrency c r =
      let v = Reach-Inv (new_controller-Inv new_id options) r in
      elim (Bool-cases (is_active c.running)) [
        | inl on ↦
            let p = v.pool on in
            let few : tally slot_uploading c.items ≤ c.concurrency =
              omega (arith, tally-uploading c.cancel_requested c.items v.slots, p.counted, p.few) in
            (few, omega (arith, v.bounded.1))
        | inr off ↦ (
          omega (arith, tally-uploading c.cancel_requested c.items v.slots, v.quiet off),
          omega (arith, tally-uploading c.cancel_requested c.items v.slots, v.quiet off),
        )
      ]

sum_by-bytes :
    (k : Bool) (xs : List Slot)
    → All (SlotOk k) xs
    → (sum_by (λ s. s.item.uploaded_bytes) xs
        ≡ sum_by (λ s. if is_succeeded s.item.status then s.item.size else 0) xs)
      × (sum_by (λ s. s.item.uploaded_bytes) xs ≤ sum_by (λ s. s.item.size) xs)
sum_by-bytes k [] h = (refl, omega arith)
sum_by-bytes k (x ∷ xs) h = let (e, l) = sum_by-bytes k xs h.1 in ground (arith, h.0.bytes)

module _ (new_id : ℕ → String) (options : UploadTaskControllerOptions) where
  -- The uploaded bytes of a snapshot are the sizes of the files that succeeded, and never more than
  -- the total.
  pub uploaded_bytes_exact :
      (c : UploadTaskController)
      → Reach (new_controller new_id options) c
      → ((get_snapshot c).uploaded_bytes
          ≡ sum_by (λ s. if is_succeeded s.item.status then s.item.size else 0) c.items)
        × ((get_snapshot c).uploaded_bytes ≤ (get_snapshot c).total_bytes)
  unfolding get_snapshot
  uploaded_bytes_exact c r =
      sum_by-bytes c.cancel_requested c.items
        (Reach-Inv (new_controller-Inv new_id options) r).slots

-- After a cancellation no item is queued, and the call that holds an item has been told to abort.
pub record Cancelled (u : UploadTaskController) : Type 0 where
  pub flagged : u.cancel_requested ≡ true
  pub none_queued : tally slot_queued u.items ≡ 0
  pub all_aborted : All (λ s. slot_held s ≡ true → s.aborted ≡ true) u.items

cancelled-list :
    (xs : List Slot)
    → (tally slot_queued (map abort_slot (map cancel_queued xs)) ≡ 0)
      × All (λ s. slot_held s ≡ true → s.aborted ≡ true) (map abort_slot (map cancel_queued xs))
cancelled-list [] = (refl, tt)
cancelled-list (x ∷ xs) = let (a, b) = cancelled-list xs in (ground arith, (λ h. ground arith, b))

-- `cancel()` on a task that is not over: no item stays queued, every call that holds an item has its
-- signal aborted, and a worker that comes back to its loop calls the uploader no more.
pub cancel-Cancelled :
    (c : UploadTaskController)
    → is_final c.status ≡ false
    → Cancelled (cancel c) × ((resume_worker (cancel c)).calls ≡ c.calls)
unfolding cancel emit resume_worker
cancel-Cancelled c open_ =
    let (a, b) = cancelled-list c.items in
    rw open_ (record { flagged = refl; none_queued = a; all_aborted = b }, refl)
