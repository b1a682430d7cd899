-- ===== src/UploadTask/Steps.antt =====
-- The interleavings of web/src/utils/uploadTask.ts: which stretch of code may come next.
use mathlib.Core.Option.{get_or}
use omni_store.Common.{
  List, [], ◌∷◌, Option-cases, inl, inr, ℕ, suc, Option, none, some, get_elem?, ◌==◌, if◌then◌else◌,
  ◌≡◌,
}
use omni_store.UploadTask.Defs.{
  UploadConflictDecision, Outcome, Frame, no_frame, awaiting_uploader, awaiting_retry,
  awaiting_decision, Slot, RunPhase, idle, active, ended, UploadTaskController,
}
use omni_store.UploadTask.Control.{
  receive_decision, settle_upload, apply_decision, settle_retry, resume_worker, start, cancel,
  retry_failed, finish_run,
}

-- The calls of the public methods; a worker's next round; the uploader's promise for an item settles;
-- the promise of `resolveConflict` is resolved; the code that awaits that promise, or the result of
-- `conflictDecisionFor`, goes on for an item; `Promise.all` goes on; `start` clears `runningPromise`.
pub data Event : Type 0 where
  call_start call_cancel call_retry_failed worker_round all_returned run_cleared : Event
  uploader_settles : ℕ → Outcome → Event
  user_answers : UploadConflictDecision → Event
  promise_heard decision_returned : ℕ → Event

unfoldable pub settle : ℕ → Outcome → Frame → UploadTaskController → Option UploadTaskController
settle i o awaiting_uploader c = some (settle_upload i o c)
settle i o awaiting_retry c = some (settle_retry i o c)
settle i o no_frame c = none
settle i o (awaiting_decision d) c = none

unfoldable pub hear :
    ℕ
    → Frame
    → Option (Option UploadConflictDecision)
    → UploadTaskController
    → Option UploadTaskController
hear i (awaiting_decision none) (some (some d)) c = some (receive_decision i d c)
hear i f p c = none

unfoldable pub decide : ℕ → Frame → UploadTaskController → Option UploadTaskController
decide i (awaiting_decision (some d)) c = some (apply_decision i d c)
decide i f c = none

unfoldable pub answer :
    UploadConflictDecision
    → Option (Option UploadConflictDecision)
    → UploadTaskController
    → Option UploadTaskController
answer d (some none) c = some (record c { conflict_decision_promise = some (some d) })
answer d p c = none

unfoldable pub round : ℕ → RunPhase → UploadTaskController → Option UploadTaskController
round (suc n) active c = some (resume_worker c)
round n p c = none

unfoldable pub finish : RunPhase → UploadTaskController → Option UploadTaskController
finish active c = if c.returned == c.workers then some (finish_run c) else none
finish p c = none

unfoldable pub clear : RunPhase → UploadTaskController → Option UploadTaskController
clear ended c = some (record c { running = idle })
clear p c = none

abbrev pub at_slot :
    Option Slot → (Slot → Option UploadTaskController) → Option UploadTaskController
at_slot none k = none
at_slot (some s) k = k s

unfoldable pub step : UploadTaskController → Event → Option UploadTaskController
unfolding settle hear decide answer round finish clear
step c call_start = some (start c)
step c call_cancel = some (cancel c)
step c call_retry_failed = some (retry_failed c)
step c worker_round = round c.ready c.running c
step c all_returned = finish c.running c
step c run_cleared = clear c.running c
step c (uploader_settles i o) = at_slot (get_elem? c.items i) (λ s. settle i o s.frame c)
step c (user_answers d) = answer d c.conflict_decision_promise c
step c (promise_heard i) =
    at_slot (get_elem? c.items i) (λ s. hear i s.frame c.conflict_decision_promise c)
step c (decision_returned i) = at_slot (get_elem? c.items i) (λ s. decide i s.frame c)

-- The states that some sequence of events leads to.
pub data Reach (s : UploadTaskController) : UploadTaskController → Type 0 where
  here : Reach s s
  next : {t u : UploadTaskController} (e : Event) → Reach s t → step t e ≡ some u → Reach s u

-- A list of events in turn, those that cannot come being passed over.
unfoldable pub replay : UploadTaskController → List Event → UploadTaskController
replay c [] = c
replay c (e ∷ es) = replay (get_or (step c e) c) es

Reach-append : {s t u : UploadTaskController} → Reach s t → Reach t u → Reach s u
Reach-append r here = r
Reach-append r (next e q h) = next e (Reach-append r q) h

Reach-step : (c : UploadTaskController) (e : Event) → Reach c (get_or (step c e) c)
Reach-step c e = elim (Option-cases (step c e)) [
  | inl n ↦ rw n here
  | inr (u, h) ↦ rw h (next e here h)
]

pub replay-Reach : (c : UploadTaskController) (es : List Event) → Reach c (replay c es)
unfolding replay
replay-Reach c [] = here
replay-Reach c (e ∷ es) = Reach-append (Reach-step c e) (replay-Reach (get_or (step c e) c) es)
