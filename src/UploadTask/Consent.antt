-- ===== src/UploadTask/Consent.antt =====
-- Overwriting in web/src/utils/uploadTask.ts: the uploader is told to overwrite only where the policy
-- or the user said so, and the user is asked once at most.
use mathlib.Core.Path.{subst}
use omni_store.Common.{
  ℕ, ◌≤◌, Bool, true, false, ◌||◌, not, Option, none, some, List, map, modify_at, if◌then◌else◌,
  if_ind, ◌≡◌, refl, ap, arith, All, All-map, All-modify_at_any, All-weaken, Option-cases, inl, inr,
}
use omni_store.UploadTask.Defs.{
  UploadConflictPolicy, UploadConflictDecision, UploadTaskItem, Outcome, resolved, rejected, Frame,
  awaiting_retry, awaiting_decision, Slot, UploaderCall, UploadTaskController, is_already_exists,
  is_abort,
}
use omni_store.UploadTask.Control.{
  update_slot, with_frame, is_overwrite, begin_slot, begin_upload, close_slot, finish_upload,
  set_cancelled, set_succeeded, set_failed, known_decision, share_when, request_decision,
  receive_decision, settle_upload, settle_retry,
}
use omni_store.UploadTask.Steps.{}

abbrev pub Promise : Type 0
Promise = Option (Option UploadConflictDecision)

abbrev pub says_overwrite : UploadConflictDecision → Bool
says_overwrite UploadConflictDecision.overwrite = true
says_overwrite _ = false

abbrev promises_overwrite : Promise → Bool
promises_overwrite (some (some d)) = says_overwrite d
promises_overwrite _ = false

-- Whether anybody has agreed to overwrite: the policy of the task, or the user's answer.
abbrev pub agreed : UploadConflictPolicy → Promise → Bool
agreed policy p = is_overwrite policy || promises_overwrite p

abbrev frame_overwrites : Frame → Bool
frame_overwrites awaiting_retry = true
frame_overwrites (awaiting_decision (some d)) = says_overwrite d
frame_overwrites _ = false

abbrev pub frame_waits : Frame → Bool
frame_waits (awaiting_decision none) = true
frame_waits _ = false

abbrev pub is_made : Promise → Bool
is_made none = false
is_made (some p) = true

-- A call of `uploadItem` is about to overwrite only with consent, and waits for the shared promise
-- only once it is made.
pub record FrameOk (ok made : Bool) (s : Slot) : Type 0 where
  pub consented : (not (frame_overwrites s.frame) || ok) ≡ true
  pub promised : (not (frame_waits s.frame) || made) ≡ true

abbrev pub CallOk : Bool → UploaderCall → Type 0
CallOk ok k = (not k.overwrite || ok) ≡ true

-- `conflictDecision` is what the promise gave, if it is set.
abbrev pub Remembered : Option UploadConflictDecision → Promise → Type 0
Remembered none p = Unit
Remembered (some d) p = p ≡ some (some d)

pub record ConsentOf (policy : UploadConflictPolicy) (p : Promise) (xs : List Slot)
    (ks : List UploaderCall) (r : Option UploadConflictDecision) (n : ℕ) : Type 0 where
  pub frames : All (FrameOk (agreed policy p) (is_made p)) xs
  pub calls : All (CallOk (agreed policy p)) ks
  pub remembered : Remembered r p
  pub asked : n ≤ (if is_made p then 1 else 0)

abbrev pub Consent : UploadTaskController → Type 0
Consent c =
    ConsentOf c.options.conflict_policy c.conflict_decision_promise c.items c.calls
      c.conflict_decision c.asked

made_later : {ok : Bool} (s : Slot) → FrameOk ok false s → FrameOk ok true s
made_later s h = ground arith

-- Before the promise is made there is nothing to remember.
forgotten : (r : Option UploadConflictDecision) (p : Promise) → Remembered r none → Remembered r p
forgotten none p h = tt
forgotten (some d) p h = cc

known_agreed :
    (policy : UploadConflictPolicy) (r : Option UploadConflictDecision) (p : Promise)
    {d : UploadConflictDecision}
    → Remembered r p
    → known_decision policy r ≡ some d
    → (not (says_overwrite d) || agreed policy p) ≡ true
known_agreed UploadConflictPolicy.skip r p m h = ground arith
known_agreed UploadConflictPolicy.overwrite r p m h = ground arith
known_agreed UploadConflictPolicy.ask none p m h = cc
known_agreed UploadConflictPolicy.ask (some d) p m h = ground arith

module _ (c : UploadTaskController) (v : Consent c) where
  pub begin_upload-Consent : (i : ℕ) → Consent (begin_upload i c)
  unfolding begin_upload
  begin_upload-Consent i = record {
    frames =
        All-modify_at_any (FrameOk _ _) begin_slot i c.items
          (λ s. record { consented = refl; promised = refl }) v.frames;
    calls = (ground arith, v.calls);
    remembered = v.remembered;
    asked = v.asked;
  }

  pub finish_upload-Consent :
      (f : UploadTaskItem → UploadTaskItem) (i : ℕ) → Consent (finish_upload f i c)
  unfolding finish_upload
  finish_upload-Consent f i = record {
    frames =
        All-modify_at_any (FrameOk _ _) (close_slot f) i c.items
          (λ s. record { consented = refl; promised = refl }) v.frames;
    calls = v.calls;
    remembered = v.remembered;
    asked = v.asked;
  }

  pub framed-Consent :
      (f : Frame) (i : ℕ)
      → (not (frame_overwrites f) || agreed c.options.conflict_policy c.conflict_decision_promise)
        ≡ true
      → (not (frame_waits f) || is_made c.conflict_decision_promise) ≡ true
      → Consent (update_slot (with_frame f) i c)
  framed-Consent f i a m = record {
    frames =
        All-modify_at_any (FrameOk _ _) (with_frame f) i c.items
          (λ s. record { consented = a; promised = m }) v.frames;
    calls = v.calls;
    remembered = v.remembered;
    asked = v.asked;
  }

  shared-Consent :
      (p : Promise) (i : ℕ)
      → c.conflict_decision_promise ≡ p
      → Consent (share_when p (update_slot (with_frame (awaiting_decision none)) i c))
  shared-Consent (some p) i e = framed-Consent (awaiting_decision none) i refl (ap is_made e)
  shared-Consent none i e =
      let w : ConsentOf c.options.conflict_policy none c.items c.calls c.conflict_decision c.asked =
        subst
          (λ p. ConsentOf c.options.conflict_policy p c.items c.calls c.conflict_decision c.asked) e
          v in
      let frames : All (FrameOk (agreed c.options.conflict_policy none) true)
          (modify_at (with_frame (awaiting_decision none)) i c.items) =
        All-modify_at_any (FrameOk _ _) (with_frame (awaiting_decision none)) i c.items
          (λ s. record { consented = refl; promised = refl })
          (All-weaken (FrameOk _ false) (FrameOk _ true) c.items made_later w.frames) in
      if_ind Consent c.options.has_resolver
        (record {
          frames = frames;
          calls = w.calls;
          remembered = forgotten c.conflict_decision _ w.remembered;
          asked = omega (arith, w.asked);
        })
        (record {
          frames = frames;
          calls = w.calls;
          remembered = forgotten c.conflict_decision _ w.remembered;
          asked = omega (arith, w.asked);
        })

  request_decision-Consent : (i : ℕ) → Consent (request_decision i c)
  unfolding request_decision
  request_decision-Consent i =
      elim (Option-cases (known_decision c.options.conflict_policy c.conflict_decision)) [
        | inl unknown ↦
            rw (unknown, request_decision) (shared-Consent c.conflict_decision_promise i refl)
        | inr (d, known) ↦
            rw (known, request_decision)
              (framed-Consent (awaiting_decision (some d)) i
                (known_agreed c.options.conflict_policy c.conflict_decision
                  c.conflict_decision_promise v.remembered known)
                refl)
      ]

  -- The operations keep the consent.
  pub settle_upload-Consent : (i : ℕ) (o : Outcome) → Consent (settle_upload i o c)
  unfolding settle_upload
  settle_upload-Consent i resolved =
      if_ind Consent c.cancel_requested (finish_upload-Consent set_cancelled i)
        (finish_upload-Consent set_succeeded i)
  settle_upload-Consent i (rejected e) =
      if_ind Consent (c.cancel_requested || is_abort e) (finish_upload-Consent set_cancelled i) (
        if_ind Consent (is_already_exists e) (request_decision-Consent i)
          (finish_upload-Consent (set_failed e) i))

  pub settle_retry-Consent : (i : ℕ) (o : Outcome) → Consent (settle_retry i o c)
  unfolding settle_retry
  settle_retry-Consent i resolved =
      if_ind Consent c.cancel_requested (finish_upload-Consent set_cancelled i)
        (finish_upload-Consent set_succeeded i)
  settle_retry-Consent i (rejected e) =
      if_ind Consent (c.cancel_requested || is_abort e) (finish_upload-Consent set_cancelled i)
        (finish_upload-Consent (set_failed e) i)

  pub receive_decision-Consent :
      (i : ℕ) (d : UploadConflictDecision)
      → c.conflict_decision_promise ≡ some (some d)
      → Consent (receive_decision i d c)
  unfolding receive_decision
  receive_decision-Consent i UploadConflictDecision.cancel e =
      framed-Consent (awaiting_decision (some UploadConflictDecision.cancel)) i refl refl
  receive_decision-Consent i d e =
      let w = framed-Consent (awaiting_decision (some d)) i (ground arith) refl in
      record { frames = w.frames; calls = w.calls; remembered = e; asked = w.asked }

  -- A map that leaves the frames as they are.
  pub mapped :
      (f : Slot → Slot)
      → ((s : Slot) → (f s).frame ≡ s.frame)
      → ConsentOf c.options.conflict_policy c.conflict_decision_promise
          (map f c.items)
          c.calls
          c.conflict_decision
          c.asked
  mapped f same = record {
    frames =
        All-map (FrameOk _ _) (FrameOk _ _) f c.items
          (λ s h. record { consented = rw (same s) h.consented; promised = rw (same s) h.promised })
          v.frames;
    calls = v.calls;
    remembered = v.remembered;
    asked = v.asked;
  }
