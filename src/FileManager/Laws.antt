-- ===== src/FileManager/Laws.antt =====
-- What pasting, dropping and deleting in web/src/pages/FileManager.tsx do, for every server.
use Prim.Native.String.{String}
use omni_store.Common.{
  ℕ, ◌+◌, Bool, true, false, ◌||◌, not, Option, none, some, List, [], ◌∷◌, ◌++◌, map, length, tally,
  keep, reverse, if_split, ◌≡◌, ◌≢◌, ◌⊎◌, refl, ap, sym, ◌∙◌, arith, Bool-cases, All, inl, inr,
}
use omni_store.Texts.{Text, text_eq, text_eq_iff}
use omni_store.FilePaths.{normalize_path, parent_path, is_path_inside}
use omni_store.FileManager.Defs.{
  FileClipboardOperation, FileClipboardItem, FileClipboard, Request, Reply, TaskStatus,
  PasteTaskSnapshot, FileManagerView, copy_to_clipboard, cut_to_clipboard, clear_clipboard,
}
use omni_store.FileManager.Batch.{
  Progress, no_progress, run_batch, answers, answer_fails, first, run_batch-BatchDone,
}
use omni_store.FileManager.Actions.{
  check_items, get_paste_disabled_reason, paste_disabled_reason, running_file_task, paste_request,
  paste_items, paste_clipboard, clipboard_after, final_status, paste_when, PasteReason, is_empty,
  is_none, task_runs,
}

-- A place where an item may be pasted: not the directory that it lies in, and for a directory not
-- itself nor anything inside of it. Items of another source may go anywhere.
abbrev pub MayPaste : Text → Text → FileClipboardItem → Type 0
MayPaste source_key target item =
    (item.source_key ≢ source_key)
    ⊎ ((target ≢ parent_path item.path)
        × ((item.is_dir ≡ false) ⊎ (is_path_inside target item.path ≡ false)))

item-MayPaste :
    (key target : Text) (item : FileClipboardItem) (items : List FileClipboardItem)
    → check_items key target (item ∷ items) ≡ none
    → MayPaste key target item
unfolding check_items
item-MayPaste key target item items h = elim (Bool-cases (text_eq item.source_key key)) [
  | inl same ↦ inr (
    λ e. ground (arith, (text_eq_iff target (parent_path item.path)).1 e),
    elim (Bool-cases item.is_dir) [ inl d ↦ inr (ground arith) | inr f ↦ inl f ],
  )
  | inr other ↦ inl (λ e. ground (arith, (text_eq_iff item.source_key key).1 e))
]

check_items-MayPaste :
    (key target : Text) (items : List FileClipboardItem)
    → check_items key target items ≡ none
    → All (MayPaste key target) items
unfolding check_items
check_items-MayPaste key target [] h = tt
check_items-MayPaste key target (item ∷ items) h =
    (item-MayPaste key target item items h, check_items-MayPaste key target items (ground arith))

-- Pasting is possible only with something on the clipboard, into a source that can be written, and
-- into a directory where each item may be pasted.
pub get_paste_disabled_reason-MayPaste :
    (items : List FileClipboardItem) (operation : Option FileClipboardOperation) (key path : Text)
    (can_write : Bool)
    → get_paste_disabled_reason items operation key path can_write ≡ none
    → (is_none operation ≡ false)
      × (is_empty items ≡ false)
      × (can_write ≡ true)
      × All (MayPaste key (normalize_path path)) items
unfolding get_paste_disabled_reason
get_paste_disabled_reason-MayPaste items operation key path can_write h = (
  ground arith,
  ground arith,
  ground arith,
  check_items-MayPaste key (normalize_path path) items (ground arith),
)

length-failed :
    {A : Type 0} (rs : List (A × Reply))
    → length (map first (keep answer_fails rs)) ≡ tally answer_fails rs
length-failed [] = refl
length-failed (r ∷ rs) = ground (arith, length-failed rs)

-- The clipboard behind a paste, by the items whose request failed.
abbrev pub clipboard_of :
    FileClipboardOperation → List FileClipboardItem → FileClipboard → FileClipboard
clipboard_of FileClipboardOperation.cut [] old = clear_clipboard
clipboard_of FileClipboardOperation.cut (x ∷ xs) old = cut_to_clipboard (x ∷ xs)
clipboard_of FileClipboardOperation.copy [] old = old
clipboard_of FileClipboardOperation.copy (x ∷ xs) old = copy_to_clipboard (x ∷ xs)

abbrev pub status_of {ℓ} : {A : Type ℓ} → List A → TaskStatus
status_of [] = TaskStatus.completed
status_of (x ∷ xs) = TaskStatus.completed_with_errors

after-left :
    (operation : FileClipboardOperation) (xs : List FileClipboardItem)
    (p : Progress FileClipboardItem) (old : FileClipboard)
    → p.failed_items ≡ xs
    → p.failed ≡ length xs
    → clipboard_after operation p old ≡ clipboard_of operation xs old
after-left FileClipboardOperation.cut [] p old e n = rw n
after-left FileClipboardOperation.cut (x ∷ xs) p old e n = ground arith
after-left FileClipboardOperation.copy [] p old e n = rw n
after-left FileClipboardOperation.copy (x ∷ xs) p old e n = ground arith

pub status-left : {A : Type 0} (xs : List A) (n : ℕ) → n ≡ length xs → final_status n ≡ status_of xs
status-left [] n e = rw e
status-left (x ∷ xs) n e = ground arith

-- What a task that is over shows of its batch.
pub record TaskOver {A : Type 0} (xs : List A) (failed_ones : List A) (t : PasteTaskSnapshot)
    : Type 0 where
  pub status : t.status ≡ status_of failed_ones
  pub total : t.total ≡ length xs
  pub counted : t.completed + t.failed ≡ t.total
  pub failed : t.failed ≡ length failed_ones
  pub errors : length t.errors ≡ t.failed

abbrev pub TaskShown : {A : Type 0} → List A → List A → Option PasteTaskSnapshot → Type 0
TaskShown xs failed_ones none = ⊥
TaskShown xs failed_ones (some t) = TaskOver xs failed_ones t

-- The items of a batch whose request fails at the server.
unfoldable pub failing :
    {A W : Type 0} → (Request → W → W × Reply) → (A → Request) → List A → W → List A
failing server request xs w = map first (keep answer_fails (answers server request xs w))

module _ {A W : Type 0} (server : Request → W → W × Reply) (request : A → Request) (name : A → Text)
    (fallback : String) (xs : List A) (w : W) (old : List Request) where
  abbrev pub after_batch : Progress A
  after_batch = (run_batch server request name fallback xs no_progress w old).0

  pub batch-failed : after_batch.failed ≡ length (failing server request xs w)
  unfolding failing
  batch-failed =
      (run_batch-BatchDone server request name fallback xs w old).failures
      ∙ sym (length-failed (answers server request xs w))

module _ {W : Type 0} (server : Request → W → W × Reply) (v : FileManagerView W) where
  -- The items of the clipboard whose request fails.
  abbrev pub not_pasted : FileClipboardOperation → List FileClipboardItem
  not_pasted operation =
      failing server (paste_request operation v.source_key v.current_path) v.clipboard.items v.world

  -- What pasting comes to: one request for each item on the clipboard, in order; the items whose request
  -- failed are on the clipboard for another try, which a cut without failures leaves empty; and the task
  -- counts each item once.
  pub record Pasted (operation : FileClipboardOperation) (v' : FileManagerView W) : Type 0 where
    pub sent :
        v'.sent
        ≡ reverse (map (paste_request operation v.source_key v.current_path) v.clipboard.items)
          ++ v.sent
    pub clipboard : v'.clipboard ≡ clipboard_of operation (not_pasted operation) v.clipboard
    pub task : TaskShown v.clipboard.items (not_pasted operation) v'.paste_task

  paste_items-Pasted :
      (operation : FileClipboardOperation)
      → Pasted operation (paste_items server operation v.clipboard.items v)
  unfolding paste_items failing
  paste_items-Pasted operation =
      let request = paste_request operation v.source_key v.current_path in
      let b =
        run_batch-BatchDone server request (λ i. i.name) "粘贴失败" v.clipboard.items v.world v.sent in
      let f = batch-failed server request (λ i. i.name) "粘贴失败" v.clipboard.items v.world v.sent in
      record {
        sent = b.requested;
        clipboard = after-left operation _ _ v.clipboard b.failed_items f;
        task = record {
          status = status-left _ _ f;
          total = refl;
          counted = b.counted;
          failed = f;
          errors = b.errors;
        };
      }

  -- What is behind a call of pasteClipboard, by the operation of the clipboard.
  abbrev pub PastedBy : Option FileClipboardOperation → FileManagerView W → Type 0
  PastedBy none v' = ⊥
  PastedBy (some operation) v' = Pasted operation v'

  -- A reason not to paste leaves everything as it is; without one the items are pasted.
  abbrev pub PasteOutcome : Option PasteReason → FileManagerView W → Type 0
  PasteOutcome none v' = PastedBy v.clipboard.operation v'
  PasteOutcome (some reason) v' = v' ≡ v

  may_paste :
      paste_disabled_reason v ≡ none
      → (is_none v.clipboard.operation ≡ false)
        × (is_empty v.clipboard.items ≡ false)
        × (task_runs v.paste_task ≡ false)
  unfolding paste_disabled_reason running_file_task
  may_paste h =
      let free =
        get_paste_disabled_reason-MayPaste v.clipboard.items v.clipboard.operation v.source_key
          v.current_path v.can_write (ground arith) in
      (free.0, free.1, ground arith)

  refused :
      (o : Option FileClipboardOperation)
      → is_none (paste_disabled_reason v) ≡ false
      → paste_when server o v ≡ v
  refused none h = refl
  refused (some operation) h = ground arith

  pasted_by :
      (o : Option FileClipboardOperation)
      → is_none o ≡ false
      → paste_disabled_reason v ≡ none
      → PastedBy o (paste_when server o v)
  pasted_by none o h = ground arith
  pasted_by (some operation) o h =
      if_split (Pasted operation)
        (is_empty v.clipboard.items
          || (not (is_none (paste_disabled_reason v)) || task_runs v.paste_task))
        (λ no. absurd (ground (arith, may_paste h))) (λ yes. paste_items-Pasted operation)

  outcome :
      (r : Option PasteReason)
      → paste_disabled_reason v ≡ r
      → PasteOutcome r (paste_clipboard server v)
  unfolding paste_clipboard
  outcome none h = pasted_by v.clipboard.operation (may_paste h).0 h
  outcome (some reason) h = refused v.clipboard.operation (ap is_none h)

  -- Pasting does nothing while there is a reason against it; else each item of the clipboard gets one
  -- request, in order, the clipboard keeps exactly the items whose request failed when there are any,
  -- and the task counts each item once.
  pub paste_clipboard-PasteOutcome :
      PasteOutcome (paste_disabled_reason v) (paste_clipboard server v)
  paste_clipboard-PasteOutcome = outcome (paste_disabled_reason v) refl
