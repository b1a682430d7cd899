-- ===== src/FileManager/Dropping.antt =====
-- A drop on the page of web/src/pages/FileManager.tsx starts an upload task over the files of the drop.
use Prim.Native.String.{String}
use omni_store.Common.{
  ℕ, zero, suc, Bool, true, false, Option, none, some, List, [], ◌∷◌, map, modify_at, drop, any,
  length, min, if_ind, if_split, ◌≡◌, refl, ap, ◌∙◌, arith,
}
use omni_store.Texts.{Text}
use omni_store.Files.{File}
use omni_store.DropFiles.Collect.{DroppedUpload, DataTransfer, is_no_file, collect_dropped_upload}
use omni_store.UploadTask.Defs.{
  UploadKind, UploadTaskStatus, UploadTaskControllerOptions, UploadTaskController, Slot,
}
use omni_store.UploadTask.Items.{slot_queued, new_items, new_controller, emit}
use omni_store.UploadTask.Control.{
  begin_slot, begin_upload, take_from, worker_takes, resume_worker, start_workers, enter_run,
  launch, start,
}
use omni_store.UploadTask.Steps.{call_start, step, Reach, here, next}
use omni_store.FileManager.Actions.{running_file_task}
use omni_store.FileManager.Uploads.{
  UploadPage, Closure, upload_kind, shows_running, closure_of, options_of, start_upload, drop_in,
  handle_drop, finish_drop, drop_read,
}

abbrev pub slot_file : Slot → File
slot_file s = s.item.file

-- What the workers leave as it is when they start.
abbrev Kept : UploadTaskController → UploadTaskController → Type 0
Kept c u = (u.status ≡ c.status) × (map slot_file u.items ≡ map slot_file c.items)

begin_slot-file :
    (i : ℕ) (xs : List Slot) → map slot_file (modify_at begin_slot i xs) ≡ map slot_file xs
begin_slot-file i [] = refl
begin_slot-file zero (x ∷ xs) = refl
begin_slot-file (suc i) (x ∷ xs) = ap (λ r. slot_file x ∷ r) (begin_slot-file i xs)

worker_takes-Kept : (t : ℕ × Option ℕ) (c : UploadTaskController) → Kept c (worker_takes t c)
unfolding begin_upload emit
worker_takes-Kept (n, none) c = (refl, refl)
worker_takes-Kept (n, some i) c = (refl, begin_slot-file i c.items)

resume_worker-Kept : (c : UploadTaskController) → Kept c (resume_worker c)
unfolding resume_worker
resume_worker-Kept c =
    if_ind (Kept c) c.cancel_requested (refl, refl)
      (worker_takes-Kept (take_from c.next_index (drop c.next_index c.items)) c)

start_workers-Kept : (n : ℕ) (c : UploadTaskController) → Kept c (start_workers n c)
unfolding start_workers
start_workers-Kept zero c = (refl, refl)
start_workers-Kept (suc n) c =
    let a = start_workers-Kept n (resume_worker c) in
    let b = resume_worker-Kept c in (a.0 ∙ b.0, a.1 ∙ b.1)

new_items-file :
    (new_id : ℕ → String) (n : ℕ) (files : List File)
    → map slot_file (new_items new_id n files) ≡ files
unfolding new_items
new_items-file new_id n [] = refl
new_items-file new_id n (f ∷ files) = ap (λ r. f ∷ r) (new_items-file new_id (suc n) files)

any-new_items :
    (new_id : ℕ → String) (n : ℕ) (files : List File)
    → is_no_file files ≡ false
    → any slot_queued (new_items new_id n files) ≡ true
unfolding new_items
any-new_items new_id n [] h = cc
any-new_items new_id n (f ∷ files) h = refl

launch-running :
    (c : UploadTaskController)
    → any slot_queued c.items ≡ true
    → ((launch c).status ≡ UploadTaskStatus.running)
      × (map slot_file (launch c).items ≡ map slot_file c.items)
unfolding launch enter_run emit
launch-running c h = rw h (start_workers-Kept (min c.concurrency (length c.items)) _)

-- A new task with a file starts to run.
started :
    (new_id : ℕ → String) (options : UploadTaskControllerOptions)
    → is_no_file options.files ≡ false
    → ((start (new_controller new_id options)).status ≡ UploadTaskStatus.running)
      × (map slot_file (start (new_controller new_id options)).items ≡ options.files)
unfolding start new_controller
started new_id options h =
    let (a, b) =
      launch-running (new_controller new_id options) (any-new_items new_id 1 options.files h) in
    (a, b ∙ new_items-file new_id 1 options.files)

-- A page on which one task more was started: one in a state that a new task reaches, over the files given.
pub record Started {W : Type 0} (new_id : ℕ → String) (options : UploadTaskControllerOptions)
    (before after : UploadPage W) : Type 0 where
  pub task : UploadTaskController
  pub uploads : after.uploads ≡ task ∷ before.uploads
  pub reached : Reach (new_controller new_id options) task
  pub files : map slot_file task.items ≡ options.files
  pub status : task.status ≡ UploadTaskStatus.running
  pub shown : after.view.upload_running ≡ true

start-Reach : (c : UploadTaskController) → Reach c (start c)
unfolding step
start-Reach c = next call_start here refl

drop_in-drops :
    {W : Type 0} (k : Closure) (transfer : DataTransfer) (p : UploadPage W)
    → k.can_write ≡ true
    → k.running ≡ false
    → (drop_in k true transfer p).drops ≡ record { closure = k; transfer = transfer } ∷ p.drops
unfolding drop_in
drop_in-drops k transfer p writable quiet = ground (arith, writable, quiet)

unread :
    {W : Type 0} {new_id : ℕ → String} {options : UploadTaskControllerOptions} {q u : UploadPage W}
    → Started new_id options q u
    → Started new_id options q (record u { reading_dropped_files = false })
unread s = record {
  task = s.task;
  uploads = s.uploads;
  reached = s.reached;
  files = s.files;
  status = s.status;
  shown = s.shown;
}

module _ {W : Type 0} (new_id : ℕ → ℕ → String) (to_string : Text → String)
    (at_most : Text → Text → Bool) where
  start_upload-Started :
      (k : Closure) (files : List File) (kind : UploadKind) (q : UploadPage W)
      → is_no_file files ≡ false
      → k.can_write ≡ true
      → k.running ≡ false
      → Started
          (new_id (length q.uploads))
          (options_of to_string k files kind)
          q
          (start_upload new_id to_string k files kind q)
  unfolding start_upload
  start_upload-Started k files kind q some_file writable quiet =
      let options = options_of to_string k files kind in
      let (a, b) = started (new_id (length q.uploads)) options some_file in
      rw (some_file, writable, quiet)
        (record {
          task = start (new_controller (new_id (length q.uploads)) options);
          uploads = refl;
          reached = start-Reach (new_controller (new_id (length q.uploads)) options);
          files = b;
          status = a;
          shown = ap shows_running a;
        })

  finish_drop-Started :
      (k : Closure) (o : Option DroppedUpload) (d : DroppedUpload) (q : UploadPage W)
      → o ≡ some d
      → is_no_file d.files ≡ false
      → k.can_write ≡ true
      → k.running ≡ false
      → Started
          (new_id (length q.uploads))
          (options_of to_string k d.files (upload_kind d.kind))
          q
          (finish_drop new_id to_string k o q)
  unfolding finish_drop
  finish_drop-Started k o d q given some_file writable quiet = rw given (
      if_split
        (Started (new_id (length q.uploads)) (options_of to_string k d.files (upload_kind d.kind))
          q)
        (is_no_file d.files) (λ e. cc)
        (λ e. unread (start_upload-Started k d.files (upload_kind d.kind) q e writable quiet)))

  -- A drop on a page that can be written and on which no task runs is kept until its files are read. When the
  -- browser has given them, and there are any, then a task over just these files is started, with the
  -- source and the directory of the page on which the drop was made, whatever the page has become by then:
  -- also if another task runs on it.
  pub drop_read-Started :
      (p q : UploadPage W) (transfer : DataTransfer) (d : DroppedUpload)
      → p.view.can_write ≡ true
      → running_file_task p.view ≡ false
      → collect_dropped_upload at_most transfer ≡ some d
      → is_no_file d.files ≡ false
      → ((handle_drop true transfer p).drops
          ≡ record { closure = closure_of p; transfer = transfer } ∷ p.drops)
        × Started
            (new_id (length q.uploads))
            (options_of to_string (closure_of p) d.files (upload_kind d.kind))
            q
            (drop_read new_id to_string at_most
              (record { closure = closure_of p; transfer = transfer })
              q)
  unfolding handle_drop drop_read
  drop_read-Started p q transfer d writable quiet given some_file = (
    drop_in-drops (closure_of p) transfer p writable quiet,
    finish_drop-Started (closure_of p) (collect_dropped_upload at_most transfer) d q given some_file
        writable quiet,
  )
