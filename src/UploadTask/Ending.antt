-- ===== src/UploadTask/Ending.antt =====
-- A run of web/src/utils/uploadTask.ts comes to its end: the number of steps that it makes is bounded.
use Prim.Native.String.{String}
use mathlib.Core.Path.{subst}
use omni_store.Common.{
  ℕ, suc, ◌+◌, ◌*◌, ◌≤◌, ◌<◌, Bool, false, Option, none, some, List, [], ◌∷◌, length, get_elem?,
  sum_by, ◌==◌, if_split, ◌≡◌, refl, ap, arith, All,
}
use omni_store.UploadTask.Defs.{
  UploadConflictDecision, Outcome, Frame, no_frame, awaiting_uploader, awaiting_retry,
  awaiting_decision, Slot, RunPhase, idle, active, ended, UploadTaskControllerOptions,
  UploadTaskController,
}
use omni_store.UploadTask.Items.{new_controller}
use omni_store.UploadTask.Control.{cancel}
use omni_store.UploadTask.Steps.{
  Event, call_start, call_cancel, call_retry_failed, worker_round, all_returned, run_cleared,
  uploader_settles, user_answers, promise_heard, decision_returned, at_slot, settle, hear, decide,
  answer, round, finish, clear, step, Reach,
}
use omni_store.UploadTask.Slots.{SlotOk}
use omni_store.UploadTask.Invariant.{is_active, Inv, cancel-Inv}
use omni_store.UploadTask.Reachable.{Reach-Inv, new_controller-Inv, step-Inv}
use omni_store.UploadTask.Consent.{Promise}
use omni_store.UploadTask.Progress.{is_call}
use omni_store.UploadTask.WorkLeft.{
  slot_weight, phase_weight, work_left, settle_upload-work_left, settle_retry-work_left,
  receive_decision-work_left, apply_decision-work_left, resume_worker-work_left,
  finish_run-work_left, cancel-work_left,
}

-- `n` steps of a run, with calls of `cancel` between them that are not counted.
pub data Works (c : UploadTaskController) : ℕ → UploadTaskController → Type 0 where
  rests : Works c 0 c
  works :
      {n : ℕ} {t u : UploadTaskController} (e : Event)
      → Works c n t
      → is_call e ≡ false
      → step t e ≡ some u
      → Works c (suc n) u
  cancels : {n : ℕ} {t : UploadTaskController} → Works c n t → Works c n (cancel t)

-- What a step that is made leads to has less left to do.
abbrev Lessens : ℕ → Option UploadTaskController → Type 0
Lessens n none = Unit
Lessens n (some u) = work_left u < n

module _ (c : UploadTaskController) where
  settle-Lessens :
      (i : ℕ) (o : Outcome) (f : Frame) {s : Slot}
      → get_elem? c.items i ≡ some s
      → s.frame ≡ f
      → Lessens (work_left c) (settle i o f c)
  unfolding settle
  settle-Lessens i o no_frame g e = tt
  settle-Lessens i o awaiting_uploader g e = settle_upload-work_left c i g o e
  settle-Lessens i o awaiting_retry g e = settle_retry-work_left c i g o e
  settle-Lessens i o (awaiting_decision d) g e = tt

  hear-Lessens :
      (i : ℕ) (f : Frame) (p : Promise) {s : Slot}
      → get_elem? c.items i ≡ some s
      → s.frame ≡ f
      → Lessens (work_left c) (hear i f p c)
  unfolding hear
  hear-Lessens i (awaiting_decision none) (some (some d)) g e = receive_decision-work_left c i g d e
  hear-Lessens i _ _ g e = tt

  decide-Lessens :
      (i : ℕ) (f : Frame) {s : Slot}
      → get_elem? c.items i ≡ some s
      → s.frame ≡ f
      → Lessens (work_left c) (decide i f c)
  unfolding decide
  decide-Lessens i (awaiting_decision (some d)) g e = apply_decision-work_left c i g d e
  decide-Lessens i _ g e = tt

  answer-Lessens :
      (d : UploadConflictDecision) (p : Promise)
      → c.conflict_decision_promise ≡ p
      → Lessens (work_left c) (answer d p c)
  unfolding answer
  answer-Lessens d (some none) e = ground (arith, e)
  answer-Lessens d _ e = tt

  round-Lessens :
      Inv c
      → (n : ℕ) (r : RunPhase) → c.ready ≡ n
      → c.running ≡ r
      → Lessens (work_left c) (round n r c)
  unfolding round
  round-Lessens v (suc n) active e a =
      resume_worker-work_left c a (omega arith) (v.pool (ap is_active a))
  round-Lessens v _ _ e a = tt

  finish-Lessens : (r : RunPhase) → c.running ≡ r → Lessens (work_left c) (finish r c)
  unfolding finish
  finish-Lessens active a =
      if_split (Lessens (work_left c)) (c.returned == c.workers) (λ e. finish_run-work_left c a)
        (λ e. tt)
  finish-Lessens _ a = tt

  clear-Lessens : (r : RunPhase) → c.running ≡ r → Lessens (work_left c) (clear r c)
  unfolding clear
  clear-Lessens ended a = ground (arith, a)
  clear-Lessens _ a = tt

  at-Lessens :
      (i : ℕ) (o : Option Slot) (k : Slot → Option UploadTaskController)
      → get_elem? c.items i ≡ o
      → ((s : Slot) → get_elem? c.items i ≡ some s → Lessens (work_left c) (k s))
      → Lessens (work_left c) (at_slot o k)
  at-Lessens i none k g h = tt
  at-Lessens i (some s) k g h = h s g

  step-Lessens : Inv c → (e : Event) → is_call e ≡ false → Lessens (work_left c) (step c e)
  unfolding step
  step-Lessens v call_start h = cc
  step-Lessens v call_cancel h = cc
  step-Lessens v call_retry_failed h = cc
  step-Lessens v worker_round h = round-Lessens v c.ready c.running refl refl
  step-Lessens v all_returned h = finish-Lessens c.running refl
  step-Lessens v run_cleared h = clear-Lessens c.running refl
  step-Lessens v (uploader_settles i o) h =
      at-Lessens i (get_elem? c.items i) _ refl (λ s g. settle-Lessens i o s.frame g refl)
  step-Lessens v (user_answers d) h = answer-Lessens d c.conflict_decision_promise refl
  step-Lessens v (promise_heard i) h =
      at-Lessens i (get_elem? c.items i) _ refl
        (λ s g. hear-Lessens i s.frame c.conflict_decision_promise g refl)
  step-Lessens v (decision_returned i) h =
      at-Lessens i (get_elem? c.items i) _ refl (λ s g. decide-Lessens i s.frame g refl)

-- The steps made and what is left to do are at most what there was to do.
Works-Inv :
    {c u : UploadTaskController} {n : ℕ}
    → Inv c
    → Works c n u
    → Inv u × (n + work_left u ≤ work_left c)
Works-Inv v rests = (v, omega arith)
Works-Inv v (works {t} {u} e w k h) =
    let (v', l) = Works-Inv v w in
    let less : work_left u < work_left t =
      subst (Lessens (work_left t)) h (step-Lessens t v' e k) in
    (step-Inv t u e h v', omega (arith, l, less))
Works-Inv v (cancels {t} w) =
    let (v', l) = Works-Inv v w in (cancel-Inv t v', omega (arith, l, cancel-work_left t))

sum_weight : (k : Bool) (xs : List Slot) → All (SlotOk k) xs → sum_by slot_weight xs ≤ 8 * length xs
sum_weight k [] h = omega arith
sum_weight k (x ∷ xs) h = ground (arith, h.0.held, sum_weight k xs h.1)

phase-bounded :
    (c : UploadTaskController) (r : RunPhase) → c.running ≡ r → Inv c → phase_weight r c.ready ≤ 10
phase-bounded c active e v =
    let p = v.pool (ap is_active e) in omega (arith, p.counted, p.few, v.bounded.1)
phase-bounded c ended e v = omega arith
phase-bounded c idle e v = omega arith

work_left-bounded : (c : UploadTaskController) → Inv c → work_left c ≤ 8 * length c.items + 11
work_left-bounded c v =
    ground (arith, sum_weight c.cancel_requested c.items v.slots, phase-bounded c c.running refl v)

-- From every state that a new upload task reaches, a pending run makes at most eight steps for each file
-- and eleven more, whatever the uploader and the user answer and in whatever order, calls of `cancel` in
-- between included, unless `start` or `retryFailed` is called again.
pub Works-bounded :
    (new_id : ℕ → String) (options : UploadTaskControllerOptions) (c u : UploadTaskController)
    (n : ℕ)
    → Reach (new_controller new_id options) c
    → Works c n u
    → n ≤ 8 * length c.items + 11
Works-bounded new_id options c u n r w =
    let v = Reach-Inv (new_controller-Inv new_id options) r in
    omega (arith, (Works-Inv v w).1, work_left-bounded c v)
