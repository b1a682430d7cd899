-- ===== src/UploadTask/Examples.antt =====
-- Tests of the upload tasks, and the theorems about them at a small task: two files, one of which
-- exists already, and a user who skips it.
use Prim.Native.String.{String}
use omni_store.Common.{
  ℕ, ◌≤◌, true, none, some, List, [], ◌∷◌, tally, sum_by, if◌then◌else◌, All, length, ◌≢◌, ◌+◌, ◌*◌,
  ◌≡◌, refl, arith,
}
use omni_store.Files.{File}
use omni_store.UploadTask.Defs.{
  UploadConflictPolicy, UploadConflictDecision, UploadTaskStatus, idle, active, UploadKind,
  UploadError, resolved, rejected, is_abort, is_already_exists, UploadTaskControllerOptions,
  UploadTaskController,
}
use omni_store.UploadTask.Items.{is_succeeded, slot_uploading, get_snapshot, new_controller}
use omni_store.UploadTask.Control.{
  start, settle_upload, receive_decision, apply_decision, finish_run, cancel, resume_worker,
}
use omni_store.UploadTask.Steps.{
  Event, call_start, worker_round, all_returned, uploader_settles, user_answers, promise_heard,
  decision_returned, step, Reach, replay, replay-Reach,
}
use omni_store.UploadTask.Settled.{
  Settled, all_returned-Settled, uploading-le_concurrency, uploaded_bytes_exact, Cancelled,
  cancel-Cancelled,
}
use omni_store.UploadTask.Consent.{CallOk, agreed}
use omni_store.UploadTask.Progress.{GoesOn, running-GoesOn}
use omni_store.UploadTask.Ending.{Works, works, rests, Works-bounded}
use omni_store.UploadTask.Overwrites.{Reach-CallOk}

abbrev ids : ℕ → String
ids n = "id"

abbrev file : ℕ → ℕ → File
file n size = record { file_id = n; name = 97 ∷ []; webkit_relative_path = []; size = size }

abbrev two_files : UploadTaskControllerOptions
two_files = record {
  source_key = "docs";
  target_path = 47 ∷ [];
  files = file 1 30 ∷ file 2 12 ∷ [];
  kind = UploadKind.files;
  conflict_policy = UploadConflictPolicy.ask;
  concurrency = some 4;
  has_resolver = true;
}

abbrev exists : UploadError
exists = record { name = none; code = some "FILE_ALREADY_EXISTS"; message = some "exists" }

abbrev begun : List Event
begun = call_start ∷ uploader_settles 0 resolved ∷ uploader_settles 1 (rejected exists) ∷ []

abbrev skipped : List Event
skipped =
    call_start
    ∷ uploader_settles 0 resolved
    ∷ uploader_settles 1 (rejected exists)
    ∷ user_answers UploadConflictDecision.skip
    ∷ promise_heard 1
    ∷ decision_returned 1
    ∷ worker_round
    ∷ worker_round
    ∷ []

-- All that a run of the controller computes with.
machine : Unit {0}
unfolding new_controller step replay start settle_upload is_abort is_already_exists receive_decision
    apply_decision finish_run get_snapshot cancel resume_worker
machine = tt

started : UploadTaskController
started = replay (new_controller ids two_files) begun

worked : UploadTaskController
worked = replay (new_controller ids two_files) skipped

worked_reached : Reach (new_controller ids two_files) worked
unfolding worked
worked_reached = replay-Reach (new_controller ids two_files) skipped

started_reached : Reach (new_controller ids two_files) started
unfolding started
started_reached = replay-Reach (new_controller ids two_files) begun

abbrev done : UploadTaskController
done = finish_run worked

done_snapshot :
    ((get_snapshot done).status ≡ UploadTaskStatus.completed)
    × ((get_snapshot done).completed_files ≡ 1)
    × ((get_snapshot done).skipped_files ≡ 1)
    × ((get_snapshot done).uploaded_bytes ≡ 30)
    × (done.asked ≡ 1)
unfolding machine worked
done_snapshot = (refl, refl, refl, refl, refl)

returned_phase : (worked.running ≡ active) × (worked.returned ≡ 2) × (worked.workers ≡ 2)
unfolding machine worked
returned_phase = (refl, refl, refl)

all_returned_enabled : step worked all_returned ≡ some done
unfolding step
all_returned_enabled = ground (arith, returned_phase)

all_returned-Settled_example : Settled worked.cancel_requested done
all_returned-Settled_example =
    all_returned-Settled ids two_files worked done worked_reached all_returned_enabled

uploading-le_concurrency_example :
    (tally slot_uploading started.items ≤ started.concurrency)
    × (tally slot_uploading started.items ≤ 8)
uploading-le_concurrency_example = uploading-le_concurrency ids two_files started started_reached

uploaded_bytes_exact_example :
    ((get_snapshot started).uploaded_bytes
      ≡ sum_by (λ s. if is_succeeded s.item.status then s.item.size else 0) started.items)
    × ((get_snapshot started).uploaded_bytes ≤ (get_snapshot started).total_bytes)
uploaded_bytes_exact_example = uploaded_bytes_exact ids two_files started started_reached

cancel-Cancelled_example :
    Cancelled (cancel started) × ((resume_worker (cancel started)).calls ≡ started.calls)
unfolding machine started
cancel-Cancelled_example = cancel-Cancelled started refl

Reach-CallOk_example :
    All
      (CallOk (agreed worked.options.conflict_policy worked.conflict_decision_promise))
      worked.calls
    × (worked.asked ≤ 1)
Reach-CallOk_example = Reach-CallOk ids two_files worked worked_reached

started_running : started.running ≢ idle
unfolding machine started
started_running e = cc

running-GoesOn_example : GoesOn started
running-GoesOn_example = running-GoesOn ids two_files started started_reached started_running

abbrev answered : UploadTaskController
answered = record started {
  conflict_decision_promise = some (some UploadConflictDecision.overwrite);
}

one_answer : Works started 1 answered
unfolding machine started
one_answer = works (user_answers UploadConflictDecision.overwrite) rests refl refl

Works-bounded_example : 1 ≤ 8 * length started.items + 11
Works-bounded_example = Works-bounded ids two_files started answered 1 started_reached one_answer
