-- ===== src/UploadTask/Overwrites.antt =====
-- Every event of web/src/utils/uploadTask.ts keeps the consent: nothing is overwritten unasked.
use Prim.Native.String.{String}
use mathlib.Core.Path.{subst}
use omni_store.Common.{
  ℕ, zero, suc, ◌-◌, ◌≤◌, Bool, true, false, Option, none, some, List, [], ◌∷◌, map, get_elem?, any,
  length, min, drop, if_ind, ◌≡◌, refl, arith, All, All-get_elem?, All-weaken, ◌==◌,
}
use omni_store.UploadTask.Defs.{
  UploadConflictPolicy, UploadConflictDecision, Outcome, Frame, no_frame, awaiting_uploader,
  awaiting_retry, awaiting_decision, Slot, RunPhase, idle, active, ended,
  UploadTaskControllerOptions, UploadTaskController,
}
use omni_store.UploadTask.Items.{emit, slot_queued, slot_failed, new_items, new_controller}
use omni_store.UploadTask.Control.{
  abort_slot, set_cancelled, set_skipped, apply_decision, worker_takes, take_from, resume_worker,
  start_workers, enter_run, unless_running, launch, start, is_final, cancel_queued, cancel,
  requeue_failed, requeued, relaunch, retry_failed, cancel_open, finish_run,
}
use omni_store.UploadTask.Steps.{
  Event, call_start, call_cancel, call_retry_failed, worker_round, all_returned, run_cleared,
  uploader_settles, user_answers, promise_heard, decision_returned, settle, hear, decide, answer,
  round, finish, clear, at_slot, step, Reach, here, next,
}
use omni_store.Files.{File}
use omni_store.UploadTask.Consent.{
  Promise, Remembered, agreed, FrameOk, CallOk, ConsentOf, Consent, begin_upload-Consent,
  finish_upload-Consent, framed-Consent, settle_upload-Consent, settle_retry-Consent,
  receive_decision-Consent, mapped,
}

apply_decision-Consent :
    (c : UploadTaskController) (i : ℕ) (d : UploadConflictDecision) {s : Slot}
    → get_elem? c.items i ≡ some s
    → s.frame ≡ awaiting_decision (some d)
    → Consent c
    → Consent (apply_decision i d c)
unfolding apply_decision
apply_decision-Consent c i UploadConflictDecision.skip g e v =
    finish_upload-Consent c v set_skipped i
apply_decision-Consent c i UploadConflictDecision.cancel g e v =
    finish_upload-Consent (record c { cancel_requested = true; items = map abort_slot c.items })
      (mapped c v abort_slot (λ s. ground arith)) set_cancelled i
apply_decision-Consent c i UploadConflictDecision.overwrite g e v =
    let f = All-get_elem? (FrameOk _ _) i c.items g v.frames in
    let ok : agreed c.options.conflict_policy c.conflict_decision_promise ≡ true =
      ground (arith, f.consented) in
    let w = framed-Consent c v awaiting_retry i ok refl in
    record { frames = w.frames; calls = (ok, w.calls); remembered = w.remembered; asked = w.asked }

module _ (c : UploadTaskController) (v : Consent c) where
  worker_takes-Consent : (t : ℕ × Option ℕ) → Consent (worker_takes t c)
  worker_takes-Consent (n, none) = v
  worker_takes-Consent (n, some i) =
      begin_upload-Consent (record c { next_index = n; ready = c.ready - 1 }) v i

  resume_worker-Consent : Consent (resume_worker c)
  unfolding resume_worker
  resume_worker-Consent =
      if_ind Consent c.cancel_requested v
        (worker_takes-Consent (take_from c.next_index (drop c.next_index c.items)))

start_workers-Consent : (n : ℕ) (c : UploadTaskController) → Consent c → Consent (start_workers n c)
unfolding start_workers
start_workers-Consent zero c v = v
start_workers-Consent (suc n) c v =
    start_workers-Consent n (resume_worker c) (resume_worker-Consent c v)

launch-Consent : (c : UploadTaskController) → Consent c → Consent (launch c)
unfolding launch enter_run emit
launch-Consent c v =
    if_ind Consent (any slot_queued c.items)
      (start_workers-Consent (min c.concurrency (length c.items)) _ v) v

relaunch-Consent : (c : UploadTaskController) → Consent c → Consent (relaunch c)
unfolding relaunch emit
relaunch-Consent c v =
    if_ind Consent (any slot_failed c.items)
      (launch-Consent (requeued c) (mapped c v requeue_failed (λ s. ground arith))) v

unless_running-Consent :
    (c u : UploadTaskController) (r : RunPhase)
    → Consent c
    → Consent u
    → Consent (unless_running r c u)
unless_running-Consent c u idle v w = w
unless_running-Consent c u active v w = v
unless_running-Consent c u ended v w = v

cancel-Consent : (c : UploadTaskController) → Consent c → Consent (cancel c)
unfolding cancel emit
cancel-Consent c v = if_ind Consent (is_final c.status) v (
    mapped (record c { items = map cancel_queued c.items })
      (mapped c v cancel_queued (λ s. ground arith)) abort_slot (λ s. ground arith))

finish_run-Consent : (c : UploadTaskController) → Consent c → Consent (finish_run c)
unfolding finish_run emit
finish_run-Consent c v =
    if_ind (λ u. Consent (emit u)) c.cancel_requested (mapped c v cancel_open (λ s. ground arith)) v

answered_frame :
    (policy : UploadConflictPolicy) (d : UploadConflictDecision) (s : Slot)
    → FrameOk (agreed policy (some none)) true s
    → FrameOk (agreed policy (some (some d))) true s
answered_frame policy d s h = ground arith

unanswered :
    (r : Option UploadConflictDecision) (d : UploadConflictDecision)
    → Remembered r (some none)
    → Remembered r (some (some d))
unanswered none d h = tt
unanswered (some r) d h = cc

abbrev Leads : Option UploadTaskController → Type 0
Leads none = Unit
Leads (some u) = Consent u

module _ (c : UploadTaskController) (v : Consent c) where
  settle-Consent : (i : ℕ) (o : Outcome) (f : Frame) → Leads (settle i o f c)
  unfolding settle
  settle-Consent i o no_frame = tt
  settle-Consent i o awaiting_uploader = settle_upload-Consent c v i o
  settle-Consent i o awaiting_retry = settle_retry-Consent c v i o
  settle-Consent i o (awaiting_decision d) = tt

  hear-Consent :
      (i : ℕ) (f : Frame) (p : Promise) → c.conflict_decision_promise ≡ p → Leads (hear i f p c)
  unfolding hear
  hear-Consent i (awaiting_decision none) (some (some d)) e = receive_decision-Consent c v i d e
  hear-Consent i _ _ e = tt

  decide-Consent :
      (i : ℕ) (f : Frame) {s : Slot}
      → get_elem? c.items i ≡ some s
      → s.frame ≡ f
      → Leads (decide i f c)
  unfolding decide
  decide-Consent i (awaiting_decision (some d)) g e = apply_decision-Consent c i d g e v
  decide-Consent i _ g e = tt

  round-Consent : (n : ℕ) (r : RunPhase) → Leads (round n r c)
  unfolding round
  round-Consent (suc n) active = resume_worker-Consent c v
  round-Consent _ _ = tt

  finish-Consent : (r : RunPhase) → Leads (finish r c)
  unfolding finish
  finish-Consent active = if_ind Leads (c.returned == c.workers) (finish_run-Consent c v) tt
  finish-Consent _ = tt

  clear-Consent : (r : RunPhase) → Leads (clear r c)
  unfolding clear
  clear-Consent ended = v
  clear-Consent _ = tt

  -- The user's answer may be an agreement; it takes none back.
  answer-Consent :
      (d : UploadConflictDecision) (p : Promise)
      → c.conflict_decision_promise ≡ p
      → Leads (answer d p c)
  unfolding answer
  answer-Consent d (some none) e =
      let w : ConsentOf c.options.conflict_policy (some none) c.items c.calls c.conflict_decision
          c.asked =
        subst
          (λ p. ConsentOf c.options.conflict_policy p c.items c.calls c.conflict_decision c.asked) e
          v in
      record {
        frames =
            All-weaken (FrameOk _ _) (FrameOk _ _) c.items (λ s h. answered_frame _ d s h) w.frames;
        calls = All-weaken (CallOk _) (CallOk _) c.calls (λ k h. ground arith) w.calls;
        remembered = unanswered c.conflict_decision d w.remembered;
        asked = w.asked;
      }
  answer-Consent d _ e = tt

  at-Consent :
      (i : ℕ) (o : Option Slot) (k : Slot → Option UploadTaskController)
      → get_elem? c.items i ≡ o
      → ((s : Slot) → get_elem? c.items i ≡ some s → Leads (k s))
      → Leads (at_slot o k)
  at-Consent i none k g h = tt
  at-Consent i (some s) k g h = h s g

  step-Leads : (e : Event) → Leads (step c e)
  unfolding step start retry_failed
  step-Leads call_start = unless_running-Consent c (launch c) c.running v (launch-Consent c v)
  step-Leads call_cancel = cancel-Consent c v
  step-Leads call_retry_failed =
      unless_running-Consent c (relaunch c) c.running v (relaunch-Consent c v)
  step-Leads worker_round = round-Consent c.ready c.running
  step-Leads all_returned = finish-Consent c.running
  step-Leads run_cleared = clear-Consent c.running
  step-Leads (uploader_settles i o) =
      at-Consent i (get_elem? c.items i) _ refl (λ s g. settle-Consent i o s.frame)
  step-Leads (user_answers d) = answer-Consent d c.conflict_decision_promise refl
  step-Leads (promise_heard i) =
      at-Consent i (get_elem? c.items i) _ refl
        (λ s g. hear-Consent i s.frame c.conflict_decision_promise refl)
  step-Leads (decision_returned i) =
      at-Consent i (get_elem? c.items i) _ refl (λ s g. decide-Consent i s.frame g refl)

pub Reach-Consent : {c u : UploadTaskController} → Consent c → Reach c u → Consent u
Reach-Consent v here = v
Reach-Consent v (next {t} {u} e r h) = subst Leads h (step-Leads t (Reach-Consent v r) e)

module _ (new_id : ℕ → String) where
  new_items-FrameOk :
      (n : ℕ) (files : List File) (ok : Bool) → All (FrameOk ok false) (new_items new_id n files)
  unfolding new_items
  new_items-FrameOk n [] ok = tt
  new_items-FrameOk n (file ∷ files) ok =
      (record { consented = refl; promised = refl }, new_items-FrameOk (suc n) files ok)

  pub new_controller-Consent :
      (options : UploadTaskControllerOptions) → Consent (new_controller new_id options)
  unfolding new_controller
  new_controller-Consent options = record {
    frames = new_items-FrameOk 1 options.files _;
    calls = tt;
    remembered = tt;
    asked = omega arith;
  }

  -- In every state that a new controller reaches: a call of the uploader with 'overwrite' is made only
  -- if the policy of the task is 'overwrite' or the user answered 'overwrite'; and `resolveConflict` was
  -- called once at most.
  pub Reach-CallOk :
      (options : UploadTaskControllerOptions) (c : UploadTaskController)
      → Reach (new_controller new_id options) c
      → All (CallOk (agreed c.options.conflict_policy c.conflict_decision_promise)) c.calls
        × (c.asked ≤ 1)
  Reach-CallOk options c r =
      let v = Reach-Consent (new_controller-Consent options) r in (v.calls, ground (arith, v.asked))
