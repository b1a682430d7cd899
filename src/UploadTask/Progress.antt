-- ===== src/UploadTask/Progress.antt =====
-- No run of web/src/utils/uploadTask.ts gets stuck: while one is pending, some stretch of code can come.
use Prim.Native.String.{String}
use omni_store.Common.{
  ℕ, zero, suc, ◌<◌, Bool, true, false, ◌||◌, not, Option, none, some, List, [], ◌∷◌, get_elem?,
  tally, ◌≡◌, ◌≢◌, refl, ap, ◌∙◌, arith, All, All-get_elem?, ◌⊎◌, Bool-cases, inl, inr,
}
use omni_store.UploadTask.Defs.{
  UploadConflictDecision, resolved, Frame, no_frame, awaiting_uploader, awaiting_retry,
  awaiting_decision, Slot, RunPhase, idle, active, ended, UploadTaskControllerOptions,
  UploadTaskController,
}
use omni_store.UploadTask.Items.{is_held, slot_held, new_controller}
use omni_store.UploadTask.Control.{
  resume_worker, finish_run, receive_decision, apply_decision, settle_upload, settle_retry,
}
use omni_store.UploadTask.Steps.{
  Event, call_start, call_cancel, call_retry_failed, worker_round, all_returned, run_cleared,
  uploader_settles, user_answers, promise_heard, decision_returned, at_slot, settle, hear, decide,
  answer, round, finish, clear, step, Reach,
}
use omni_store.UploadTask.Pool.{PoolOk}
use omni_store.UploadTask.Invariant.{is_active, Inv}
use omni_store.UploadTask.Reachable.{Reach-Inv, new_controller-Inv}
use omni_store.UploadTask.Consent.{Promise, Consent, agreed, FrameOk, frame_waits, is_made}
use omni_store.UploadTask.Overwrites.{Reach-Consent, new_controller-Consent}

-- The calls of the public methods; every other event is a stretch of code of a pending run.
abbrev pub is_call : Event → Bool
is_call call_start = true
is_call call_cancel = true
is_call call_retry_failed = true
is_call _ = false

-- A stretch of code of the run that can come next.
pub record GoesOn (c : UploadTaskController) : Type 0 where
  pub event : Event
  pub after : UploadTaskController
  pub works : is_call event ≡ false
  pub made : step c event ≡ some after

held_at :
    (xs : List Slot)
    → 0 < tally slot_held xs
    → (i : ℕ) × (s : Slot) × (get_elem? xs i ≡ some s) × (slot_held s ≡ true)
held_at [] h = absurd (omega arith)
held_at (x ∷ xs) h = elim (Bool-cases (slot_held x)) [
  | inl q ↦ (0, x, refl, q)
  | inr q ↦ let (i, s, g, p) = held_at xs (ground (arith, q)) in (suc i, s, g, p)
]

zero_or_pos : (n : ℕ) → (n ≡ 0) ⊎ (0 < n)
zero_or_pos zero = inl refl
zero_or_pos (suc n) = inr (omega arith)

module _ (c : UploadTaskController) where
  at-some :
      (i : ℕ) (k : Slot → Option UploadTaskController) {s : Slot}
      → get_elem? c.items i ≡ some s
      → at_slot (get_elem? c.items i) k ≡ k s
  at-some i k g = rw g refl

  waiting-GoesOn :
      (i : ℕ) (p : Promise) {s : Slot}
      → get_elem? c.items i ≡ some s
      → s.frame ≡ awaiting_decision none
      → c.conflict_decision_promise ≡ p
      → is_made p ≡ true
      → GoesOn c
  unfolding step hear answer
  waiting-GoesOn i none g f e m = cc
  waiting-GoesOn i (some none) g f e m = record {
    event = user_answers UploadConflictDecision.skip;
    after = record c { conflict_decision_promise = some (some UploadConflictDecision.skip) };
    works = refl;
    made = ap (λ q. answer UploadConflictDecision.skip q c) e;
  }
  waiting-GoesOn i (some (some d)) {s} g f e m = record {
    event = promise_heard i;
    after = receive_decision i d c;
    works = refl;
    made = at-some i (λ t. hear i t.frame c.conflict_decision_promise c) g ∙ rw (f, e) refl;
  }

  held-GoesOn :
      (i : ℕ) (f : Frame) {s : Slot}
      → get_elem? c.items i ≡ some s
      → s.frame ≡ f
      → is_held f ≡ true
      → (not (frame_waits f) || is_made c.conflict_decision_promise) ≡ true
      → GoesOn c
  unfolding step settle decide
  held-GoesOn i no_frame g e h m = cc
  held-GoesOn i awaiting_uploader g e h m = record {
    event = uploader_settles i resolved;
    after = settle_upload i resolved c;
    works = refl;
    made = at-some i (λ t. settle i resolved t.frame c) g ∙ ap (λ f. settle i resolved f c) e;
  }
  held-GoesOn i awaiting_retry g e h m = record {
    event = uploader_settles i resolved;
    after = settle_retry i resolved c;
    works = refl;
    made = at-some i (λ t. settle i resolved t.frame c) g ∙ ap (λ f. settle i resolved f c) e;
  }
  held-GoesOn i (awaiting_decision none) g e h m =
      waiting-GoesOn i c.conflict_decision_promise g e refl m
  held-GoesOn i (awaiting_decision (some d)) g e h m = record {
    event = decision_returned i;
    after = apply_decision i d c;
    works = refl;
    made = at-some i (λ t. decide i t.frame c) g ∙ ap (λ f. decide i f c) e;
  }

  ready-GoesOn :
      (n : ℕ) (r : RunPhase) → c.ready ≡ n → c.running ≡ r → 0 < n → r ≡ active → GoesOn c
  unfolding step round
  ready-GoesOn zero r e a l o = absurd (omega arith)
  ready-GoesOn (suc n) idle e a l o = cc
  ready-GoesOn (suc n) ended e a l o = cc
  ready-GoesOn (suc n) active e a l o = record {
    event = worker_round;
    after = resume_worker c;
    works = refl;
    made = rw (e, a) refl;
  }

  returned-GoesOn : c.running ≡ active → c.returned ≡ c.workers → GoesOn c
  unfolding step finish
  returned-GoesOn a e = record {
    event = all_returned;
    after = finish_run c;
    works = refl;
    made = ground (arith, a, e);
  }

  cleared-GoesOn : c.running ≡ ended → GoesOn c
  unfolding step clear
  cleared-GoesOn a = record {
    event = run_cleared;
    after = record c { running = idle };
    works = refl;
    made = ap (λ r. clear r c) a;
  }

  active-GoesOn :
      PoolOk c
      → All
          (FrameOk
            (agreed c.options.conflict_policy c.conflict_decision_promise)
            (is_made c.conflict_decision_promise))
          c.items
      → c.running ≡ active
      → GoesOn c
  active-GoesOn p h a = elim (zero_or_pos c.ready) [
    | inr l ↦ ready-GoesOn c.ready c.running refl refl l a
    | inl r ↦ elim (zero_or_pos (tally slot_held c.items)) [
      | inl q ↦ returned-GoesOn a (omega (arith, p.counted))
      | inr q ↦
          let (i, s, g, held) = held_at c.items q in
          held-GoesOn i s.frame g refl held (All-get_elem? (FrameOk _ _) i c.items g h).promised
    ]
  ]

phase-GoesOn :
    (c : UploadTaskController) (r : RunPhase)
    → c.running ≡ r
    → r ≢ idle
    → Inv c
    → Consent c
    → GoesOn c
phase-GoesOn c idle e n v w = absurd (n refl)
phase-GoesOn c ended e n v w = cleared-GoesOn c e
phase-GoesOn c active e n v w = active-GoesOn c (v.pool (ap is_active e)) w.frames e

-- In every state that a new upload task reaches, while a run is pending (`runningPromise` is set) some
-- stretch of its code can come next, without a further call of a public method, if the uploader and
-- `resolveConflict` settle the promises that they gave.
pub running-GoesOn :
    (new_id : ℕ → String) (options : UploadTaskControllerOptions) (c : UploadTaskController)
    → Reach (new_controller new_id options) c
    → c.running ≢ idle
    → GoesOn c
running-GoesOn new_id options c r n =
    phase-GoesOn c c.running refl n (Reach-Inv (new_controller-Inv new_id options) r)
      (Reach-Consent (new_controller-Consent new_id options) r)
