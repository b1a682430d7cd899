-- ===== src/UploadTask/Reachable.antt =====
-- The invariant of web/src/utils/uploadTask.ts holds in every state that events lead to.
use Prim.Native.String.{String}
use mathlib.Core.Path.{subst}
use omni_store.Files.{File}
use omni_store.UploadTask.Invariant.{
  is_active, Inv, resume_worker_frame, resume_worker-SlotsOk, finish_run-Inv, start-Inv,
  retry_failed-Inv, cancel-Inv, settle_upload-Inv, settle_retry-Inv, apply_decision-Inv,
  receive_decision-Inv,
}
use omni_store.Common.{
  ℕ, suc, false, Option, none, some, List, [], ◌∷◌, get_elem?, tally, ◌≡◌, refl, ap, arith, All,
  if_split, ◌==◌, ==_iff,
}
use omni_store.UploadTask.Defs.{
  UploadConflictDecision, Outcome, Frame, no_frame, awaiting_uploader, awaiting_retry,
  awaiting_decision, Slot, RunPhase, active, ended, UploadTaskControllerOptions,
  UploadTaskController,
}
use omni_store.UploadTask.Items.{is_held, slot_held, new_items, new_controller}
use omni_store.UploadTask.Control.{}
use omni_store.UploadTask.Slots.{SlotOk}
use omni_store.UploadTask.Pool.{resume_worker-PoolOk}
use omni_store.UploadTask.Steps.{
  at_slot, Event, call_start, call_cancel, call_retry_failed, worker_round, all_returned,
  run_cleared, settle, hear, decide, round, finish, clear, answer, uploader_settles, user_answers,
  promise_heard, decision_returned, step, Reach, here, next,
}

-- What a step that is made leads to.
abbrev Leads : (UploadTaskController → Type 0) → Option UploadTaskController → Type 0
Leads P none = Unit
Leads P (some u) = P u

module _ (c : UploadTaskController) (v : Inv c) where
  settle-Inv :
      (i : ℕ) (o : Outcome) (f : Frame) {s : Slot}
      → get_elem? c.items i ≡ some s
      → s.frame ≡ f
      → Leads Inv (settle i o f c)
  unfolding settle
  settle-Inv i o no_frame g e = tt
  settle-Inv i o awaiting_uploader g e = settle_upload-Inv c i g (ap is_held e) v o
  settle-Inv i o awaiting_retry g e = settle_retry-Inv c i g (ap is_held e) v o
  settle-Inv i o (awaiting_decision d) g e = tt

  hear-Inv :
      (i : ℕ) (f : Frame) (p : Option (Option UploadConflictDecision)) {s : Slot}
      → get_elem? c.items i ≡ some s
      → s.frame ≡ f
      → Leads Inv (hear i f p c)
  unfolding hear
  hear-Inv i (awaiting_decision none) (some (some d)) g e =
      receive_decision-Inv c i g (ap is_held e) v d
  hear-Inv i _ _ g e = tt

  decide-Inv :
      (i : ℕ) (f : Frame) {s : Slot}
      → get_elem? c.items i ≡ some s
      → s.frame ≡ f
      → Leads Inv (decide i f c)
  unfolding decide
  decide-Inv i (awaiting_decision (some d)) g e = apply_decision-Inv c i g (ap is_held e) v d
  decide-Inv i _ g e = tt

  round-Inv : (n : ℕ) (r : RunPhase) → c.ready ≡ n → c.running ≡ r → Leads Inv (round n r c)
  unfolding round
  round-Inv (suc n) active e a =
      let p = v.pool (ap is_active a) in
      let (f, k) = resume_worker_frame c p in
      record {
        bounded = rw k.1 v.bounded;
        slots = resume_worker-SlotsOk c p v.slots;
        pool = λ on. resume_worker-PoolOk c (omega arith) v.slots p;
        quiet = λ off. cc (ap is_active k.0, ap is_active a);
      }
  round-Inv _ _ e a = tt

  finish-Inv : (r : RunPhase) → c.running ≡ r → Leads Inv (finish r c)
  unfolding finish
  finish-Inv active a =
      if_split (Leads Inv) (c.returned == c.workers)
        (λ e. finish_run-Inv c v.bounded v.slots (v.pool (ap is_active a)) ((==_iff _ _).0 e))
        (λ e. tt)
  finish-Inv _ a = tt

  clear-Inv : (r : RunPhase) → c.running ≡ r → Leads Inv (clear r c)
  unfolding clear
  clear-Inv ended a = record {
    bounded = v.bounded;
    slots = v.slots;
    pool = λ on. cc;
    quiet = λ off. v.quiet (ap is_active a);
  }
  clear-Inv _ a = tt

  answer-Inv :
      (d : UploadConflictDecision) (p : Option (Option UploadConflictDecision))
      → Leads Inv (answer d p c)
  unfolding answer
  answer-Inv d (some none) = record {
    bounded = v.bounded;
    slots = v.slots;
    pool = λ on.
        let p = v.pool on in
        record {
          status = p.status;
          counted = p.counted;
          some_worker = p.some_worker;
          few = p.few;
          passed = p.passed;
          drained = p.drained;
        };
    quiet = v.quiet;
  }
  answer-Inv d _ = tt

  at-Inv :
      (i : ℕ) (o : Option Slot) (k : Slot → Option UploadTaskController)
      → get_elem? c.items i ≡ o
      → ((s : Slot) → get_elem? c.items i ≡ some s → Leads Inv (k s))
      → Leads Inv (at_slot o k)
  at-Inv i none k g h = tt
  at-Inv i (some s) k g h = h s g

  step-Leads : (e : Event) → Leads Inv (step c e)
  unfolding step
  step-Leads call_start = start-Inv c v
  step-Leads call_cancel = cancel-Inv c v
  step-Leads call_retry_failed = retry_failed-Inv c v
  step-Leads worker_round = round-Inv c.ready c.running refl refl
  step-Leads all_returned = finish-Inv c.running refl
  step-Leads run_cleared = clear-Inv c.running refl
  step-Leads (uploader_settles i o) =
      at-Inv i (get_elem? c.items i) _ refl (λ s g. settle-Inv i o s.frame g refl)
  step-Leads (user_answers d) = answer-Inv d c.conflict_decision_promise
  step-Leads (promise_heard i) =
      at-Inv i (get_elem? c.items i) _ refl
        (λ s g. hear-Inv i s.frame c.conflict_decision_promise g refl)
  step-Leads (decision_returned i) =
      at-Inv i (get_elem? c.items i) _ refl (λ s g. decide-Inv i s.frame g refl)

-- Every event keeps the invariant.
pub step-Inv : (c u : UploadTaskController) (e : Event) → step c e ≡ some u → Inv c → Inv u
step-Inv c u e h v = subst (Leads Inv) h (step-Leads c v e)

pub Reach-Inv : {c u : UploadTaskController} → Inv c → Reach c u → Inv u
Reach-Inv v here = v
Reach-Inv v (next {t} {u} e r h) = step-Inv t u e h (Reach-Inv v r)

-- A new controller satisfies it.
module _ (new_id : ℕ → String) where
  new_items_ok :
      (n : ℕ) (files : List File)
      → All (SlotOk false) (new_items new_id n files)
        × (tally slot_held (new_items new_id n files) ≡ 0)
  unfolding new_items
  new_items_ok n [] = (tt, refl)
  new_items_ok n (file ∷ files) =
      let (h, q) = new_items_ok (suc n) files in
      ((record { held = refl; bytes = refl; error = refl; abort = refl }, h), omega (arith, q))

  pub new_controller-Inv :
      (options : UploadTaskControllerOptions) → Inv (new_controller new_id options)
  unfolding new_controller
  new_controller-Inv options = record {
    bounded = (omega arith, omega arith);
    slots = (new_items_ok 1 options.files).0;
    pool = λ on. cc;
    quiet = λ off. (new_items_ok 1 options.files).1;
  }
