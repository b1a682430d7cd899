-- ===== src/UploadTask/Invariant.antt =====
-- The invariant of UploadTaskController (web/src/utils/uploadTask.ts), kept by every event.
use omni_store.Common.{
  ℕ, zero, suc, ◌-◌, ◌≤◌, ◌<◌, Bool, true, false, some, List, [], ◌∷◌, map, length, get_elem?,
  tally, any, min, if_ind, ◌≡◌, refl, sym, ap, tally-pos, ◌∙◌, arith, All, All-map, All-weaken,
  if_split, Bool-cases, inl, inr,
}
use omni_store.UploadTask.Defs.{
  UploadConflictDecision, UploadTaskStatus, Outcome, Slot, RunPhase, idle, active, ended,
  UploadTaskController,
}
use omni_store.UploadTask.Items.{slot_held, slot_queued, slot_failed, emit}
use omni_store.UploadTask.Control.{
  is_final, cancel_open, resume_worker, start_workers, enter_run, launch, start, cancel, relaunch,
  retry_failed, finish_run, requeue_failed, begin_upload, settle_upload, settle_retry,
  apply_decision, receive_decision, unless_running, abort_slot, cancel_queued,
}
use omni_store.UploadTask.Slots.{
  SlotOk, SlotsOk, begin_upload-SlotsOk, receive_decision-SlotsOk, settle_upload-SlotsOk,
  settle_retry-SlotsOk, apply_decision-SlotsOk, cancel-SlotsOk, requeue_failed-SlotOk,
  uncancelled-SlotOk,
}
use omni_store.UploadTask.Pool.{
  PoolOk, resume_worker-PoolOk, receive_decision-PoolOk, settle_upload-PoolOk, settle_retry-PoolOk,
  apply_decision-PoolOk, cancel-PoolOk, tally_held-map, abort_slot_held, cancel_queued_held,
}
use omni_store.UploadTask.Taking.{stops, runs_dry, takes, resume_worker-Round}
use omni_store.UploadTask.Steps.{}

abbrev pub is_active : RunPhase → Bool
is_active active = true
is_active _ = false

-- The number of workers allowed is between 1 and 8; the items are as `SlotOk` says; while a run is on, its workers are as `PoolOk` says; and outside a
-- run no call of `uploadItem` holds an item.
pub record Inv (c : UploadTaskController) : Type 0 where
  pub bounded : (0 < c.concurrency) × (c.concurrency ≤ 8)
  pub slots : SlotsOk c
  pub pool : is_active c.running ≡ true → PoolOk c
  pub quiet : is_active c.running ≡ false → tally slot_held c.items ≡ 0

abbrev pub Keeps : UploadTaskController → UploadTaskController → Type 0
Keeps c u = (u.running ≡ c.running) × (u.concurrency ≡ c.concurrency)

pub resume_worker_frame :
    (c : UploadTaskController)
    → PoolOk c
    → ((resume_worker c).ready ≡ c.ready - 1) × Keeps c (resume_worker c)
resume_worker_frame c p = elim (resume_worker-Round c p.passed) [
  | stops k e ↦ rw e (refl, (refl, refl))
  | runs_dry m k l q e ↦ rw e (refl, (refl, refl))
  | takes m i k t e ↦ rw e (unfold begin_upload in (refl, (refl, refl)))
]

pub resume_worker-SlotsOk :
    (c : UploadTaskController) → PoolOk c → SlotsOk c → SlotsOk (resume_worker c)
resume_worker-SlotsOk c p h = elim (resume_worker-Round c p.passed) [
  | stops k e ↦ rw e h
  | runs_dry m k l q e ↦ rw e h
  | takes m i k t e ↦ rw e (
      begin_upload-SlotsOk (record c { next_index = m; ready = c.ready - 1 }) i t.there t.queued k
        h)
]

-- The workers' start: each of them makes a first round.
start_workers_ok :
    (n : ℕ) (c : UploadTaskController)
    → n ≤ c.ready
    → SlotsOk c
    → PoolOk c
    → SlotsOk (start_workers n c) × PoolOk (start_workers n c) × Keeps c (start_workers n c)
unfolding start_workers
start_workers_ok zero c l h p = (h, p, (refl, refl))
start_workers_ok (suc n) c l h p =
    let (r, a) = resume_worker_frame c p in
    let (h', p', a') =
      start_workers_ok n (resume_worker c) (omega (arith, r)) (resume_worker-SlotsOk c p h)
        (resume_worker-PoolOk c (omega arith) h p) in
    (h', p', (a'.0 ∙ a.0, a'.1 ∙ a.1))

length_of_any : (p : Slot → Bool) (xs : List Slot) → any p xs ≡ true → 0 < length xs
length_of_any p [] h = cc
length_of_any p (x ∷ xs) h = omega arith

-- A run is entered with some queued item, with no item held, and with the flag cleared.
enter_run-Inv :
    (c : UploadTaskController)
    → (0 < c.concurrency) × (c.concurrency ≤ 8)
    → SlotsOk c
    → tally slot_held c.items ≡ 0
    → any slot_queued c.items ≡ true
    → c.status ≡ UploadTaskStatus.running
    → Inv (enter_run c)
unfolding enter_run
enter_run-Inv c b h q a st =
    let n = min c.concurrency (length c.items) in
    let entered = record c {
      running = active;
      next_index = 0;
      workers = n;
      ready = n;
      returned = 0;
    } in
    let some_item : 0 < length c.items = length_of_any slot_queued c.items a in
    let (h', p', k) = start_workers_ok n entered (omega arith) h (record {
      status = st;
      counted = omega (arith, q);
      some_worker = omega (arith, b.0);
      few = omega arith;
      passed = tt;
      drained = λ d. absurd (omega arith);
    }) in
    record { bounded = rw k.1 b; slots = h'; pool = λ _. p'; quiet = λ e. cc }

launch-Inv : (c : UploadTaskController) → is_active c.running ≡ false → Inv c → Inv (launch c)
unfolding launch emit
launch-Inv c off v =
    if_split Inv (any slot_queued c.items)
      (λ a.
        enter_run-Inv
          (emit (record c { cancel_requested = false; status = UploadTaskStatus.running }))
          v.bounded
          (All-weaken (SlotOk c.cancel_requested) (SlotOk false) c.items
            (uncancelled-SlotOk c.cancel_requested) v.slots)
          (v.quiet off) a refl)
      (λ a. record { bounded = v.bounded; slots = v.slots; pool = λ on. cc; quiet = v.quiet })

unless_running-Inv :
    (c u : UploadTaskController) (r : RunPhase)
    → c.running ≡ r
    → Inv c
    → (is_active c.running ≡ false → Inv u)
    → Inv (unless_running r c u)
unless_running-Inv c u idle e v h = h (ap is_active e)
unless_running-Inv c u active e v h = v
unless_running-Inv c u ended e v h = v

pub start-Inv : (c : UploadTaskController) → Inv c → Inv (start c)
unfolding start
start-Inv c v = unless_running-Inv c (launch c) c.running refl v (λ off. launch-Inv c off v)

requeue_failed_held :
    (k : Bool) (s : Slot) → SlotOk k s → slot_held (requeue_failed s) ≡ slot_held s
requeue_failed_held k s h = ground arith

relaunch-Inv : (c : UploadTaskController) → is_active c.running ≡ false → Inv c → Inv (relaunch c)
unfolding relaunch emit
relaunch-Inv c off v =
    if_ind Inv (any slot_failed c.items)
      (launch-Inv
        (emit (record c {
          items = map requeue_failed c.items;
          cancel_requested = false;
          status = UploadTaskStatus.queued;
        }))
        off
        (record {
          bounded = v.bounded;
          slots =
              All-map (SlotOk c.cancel_requested) (SlotOk false) requeue_failed c.items
                (λ s h. uncancelled-SlotOk c.cancel_requested _ (requeue_failed-SlotOk _ s h))
                v.slots;
          pool = λ on. cc;
          quiet = λ o. tally_held-map requeue_failed c.items (λ s. ground arith) ∙ v.quiet off;
        }))
      v

cancel_open-SlotOk :
    (k : Bool) (s : Slot) → slot_held s ≡ false → SlotOk k s → SlotOk k (cancel_open s)
cancel_open-SlotOk k s q h = ground arith

cancel_open-SlotsOk :
    (k : Bool) (xs : List Slot)
    → tally slot_held xs ≡ 0
    → All (SlotOk k) xs
    → All (SlotOk k) (map cancel_open xs)
cancel_open-SlotsOk k [] q h = tt
cancel_open-SlotsOk k (x ∷ xs) q h =
    (cancel_open-SlotOk k x (ground arith) h.0, cancel_open-SlotsOk k xs (ground arith) h.1)

tally-cancel_open : (xs : List Slot) → tally slot_held (map cancel_open xs) ≡ tally slot_held xs
tally-cancel_open xs = tally_held-map cancel_open xs (λ s. ground arith)

-- When all workers have returned, no item is held.
pub returned-quiet :
    (c : UploadTaskController) → PoolOk c → c.returned ≡ c.workers → tally slot_held c.items ≡ 0
returned-quiet c p e = omega (arith, p.counted)

pub finish_run-Inv :
    (c : UploadTaskController)
    → (0 < c.concurrency) × (c.concurrency ≤ 8)
    → SlotsOk c
    → PoolOk c
    → c.returned ≡ c.workers
    → Inv (finish_run c)
unfolding finish_run emit
finish_run-Inv c b h p e =
    if_ind (λ u. Inv (emit u)) c.cancel_requested
      (record {
        bounded = b;
        slots = cancel_open-SlotsOk c.cancel_requested c.items (returned-quiet c p e) h;
        pool = λ on. cc;
        quiet = λ o. tally-cancel_open c.items ∙ returned-quiet c p e;
      })
      (record { bounded = b; slots = h; pool = λ on. cc; quiet = λ o. returned-quiet c p e })

pub retry_failed-Inv : (c : UploadTaskController) → Inv c → Inv (retry_failed c)
unfolding retry_failed
retry_failed-Inv c v =
    unless_running-Inv c (relaunch c) c.running refl v (λ off. relaunch-Inv c off v)

cancel_frame :
    (c : UploadTaskController)
    → ((cancel c).running ≡ c.running)
      × ((cancel c).concurrency ≡ c.concurrency)
      × (tally slot_held (cancel c).items ≡ tally slot_held c.items)
unfolding cancel emit
cancel_frame c =
    if_ind
      (λ (u : UploadTaskController).
        (u.running ≡ c.running)
        × (u.concurrency ≡ c.concurrency)
        × (tally slot_held u.items ≡ tally slot_held c.items))
      (is_final c.status) (refl, refl, refl)
      (
        refl,
        refl,
        tally_held-map abort_slot (map cancel_queued c.items) abort_slot_held
            ∙ tally_held-map cancel_queued c.items cancel_queued_held,
      )

pub cancel-Inv : (c : UploadTaskController) → Inv c → Inv (cancel c)
cancel-Inv c v =
    let (r, n, q) = cancel_frame c in
    record {
      bounded = rw n v.bounded;
      slots = cancel-SlotsOk c v.slots;
      pool = λ on. cancel-PoolOk c (v.pool (ap is_active (sym r) ∙ on));
      quiet = λ o. q ∙ v.quiet (ap is_active (sym r) ∙ o);
    }

-- An item that is held shows that a run is on.
held-active :
    (c : UploadTaskController) (i : ℕ) {s : Slot}
    → Inv c
    → get_elem? c.items i ≡ some s
    → slot_held s ≡ true
    → is_active c.running ≡ true
held-active c i v g q = elim (Bool-cases (is_active c.running)) [
  | inl on ↦ on
  | inr off ↦ absurd (ground (arith, v.quiet off, tally-pos slot_held c.items i g))
]

settle_upload-Keeps :
    (c : UploadTaskController) (i : ℕ) (o : Outcome) → Keeps c (settle_upload i o c)
unfolding settle_upload
settle_upload-Keeps c i o = ground arith

settle_retry-Keeps : (c : UploadTaskController) (i : ℕ) (o : Outcome) → Keeps c (settle_retry i o c)
unfolding settle_retry
settle_retry-Keeps c i o = ground arith

apply_decision-Keeps :
    (c : UploadTaskController) (i : ℕ) (d : UploadConflictDecision) → Keeps c (apply_decision i d c)
unfolding apply_decision
apply_decision-Keeps c i d = ground arith

receive_decision-Keeps :
    (c : UploadTaskController) (i : ℕ) (d : UploadConflictDecision)
    → Keeps c (receive_decision i d c)
unfolding receive_decision
receive_decision-Keeps c i d = ground arith

-- The stretches of `uploadItem` change neither the number of workers allowed nor the run.
module _ (c : UploadTaskController) (i : ℕ) {s : Slot} (g : get_elem? c.items i ≡ some s)
    (q : slot_held s ≡ true) (v : Inv c) where
  held-Inv : (u : UploadTaskController) → SlotsOk u → PoolOk u → Keeps c u → Inv u
  held-Inv u h p k = record {
    bounded = rw k.1 v.bounded;
    slots = h;
    pool = λ on. p;
    quiet = λ off. cc (ap is_active k.0, held-active c i v g q);
  }

  on : is_active c.running ≡ true
  on = held-active c i v g q

  pub settle_upload-Inv : (o : Outcome) → Inv (settle_upload i o c)
  settle_upload-Inv o =
      held-Inv (settle_upload i o c) (settle_upload-SlotsOk c i g q v.slots o)
        (settle_upload-PoolOk c i g q (v.pool on) o) (settle_upload-Keeps c i o)

  pub settle_retry-Inv : (o : Outcome) → Inv (settle_retry i o c)
  settle_retry-Inv o =
      held-Inv (settle_retry i o c) (settle_retry-SlotsOk c i g q v.slots o)
        (settle_retry-PoolOk c i g q (v.pool on) o) (settle_retry-Keeps c i o)

  pub apply_decision-Inv : (d : UploadConflictDecision) → Inv (apply_decision i d c)
  apply_decision-Inv d =
      held-Inv (apply_decision i d c) (apply_decision-SlotsOk c i g q v.slots d)
        (apply_decision-PoolOk c i g q (v.pool on) d) (apply_decision-Keeps c i d)

  pub receive_decision-Inv : (d : UploadConflictDecision) → Inv (receive_decision i d c)
  receive_decision-Inv d =
      held-Inv (receive_decision i d c) (receive_decision-SlotsOk c i g q v.slots d)
        (receive_decision-PoolOk c i g q (v.pool on) d) (receive_decision-Keeps c i d)
