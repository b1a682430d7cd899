-- ===== src/AnonymousUpload/Shown.antt =====
-- The page of web/src/pages/AnonymousUpload.tsx shows what its queue does, and its uploads are counted.
use mathlib.Core.Path.{subst}
use mathlib.Core.Option.{get_or}
use omni_store.Common.{
  ℕ, zero, suc, Bool, true, false, not, ◌&&◌, ◌||◌, Option, none, some, List, [], ◌∷◌, ◌++◌,
  append-nil, get_elem?, modify_at, any, ltb, ◌==◌, if_ind, if_split, All, All-map, All-append,
  All-weaken, ◌≡◌, refl, ap, ◌∙◌, arith, Bool-cases, inl, inr,
}
use omni_store.Uri.Bytes.{is_nil}
use omni_store.AnonymousUpload.{
  ImageFile, ItemError, UploadItem, AnonymousStatus, max_concurrent_uploads, file_error,
  state_queued, state_uploading, state_of,
}
use omni_store.AnonymousUpload.Queue.{
  Answer, uploaded, failed, CallPhase, pending, answered, over, UploadCall, AnonymousUploads,
  no_uploads, launch_upload, patch_item, set_uploading, apply_answer, pump_from, pump, next_items,
  valid_items, shown_first, queue_last, enqueue, add_files, end_call, freed, QueueEvent, add,
  settles, finally, settle_call, release, queue_step, play,
}
use omni_store.AnonymousUpload.Pool.{Leads, at-Leads, PoolOk, queue_step-PoolOk, no_uploads-PoolOk}

abbrev pub is_pending : UploadCall → Bool
is_pending k = elim k.phase [ pending ↦ true | _ ↦ false ]

abbrev uploads_id : ℕ → UploadCall → Bool
uploads_id id k = is_pending k && k.item.id == id

abbrev has_id : ℕ → UploadItem → Bool
has_id id w = w.id == id

-- An item is shown as uploading only while a call for it is unanswered, and as waiting only while it is
-- in the queue.
pub record ItemOk (ks : List UploadCall) (q : List UploadItem) (item : UploadItem) : Type 0 where
  pub uploading : (not (state_uploading item.state) || any (uploads_id item.id) ks) ≡ true
  pub queued : (not (state_queued item.state) || any (has_id item.id) q) ≡ true

abbrev pub ShownOk : AnonymousUploads → Type 0
ShownOk s = All (ItemOk s.calls s.queue) s.items

is_nil-eq {ℓ} : {A : Type ℓ} (xs : List A) → is_nil xs ≡ true → xs ≡ []
is_nil-eq [] h = refl
is_nil-eq (x ∷ xs) h = cc

any-append {ℓ} :
    {A : Type ℓ} (p : A → Bool) (xs ys : List A) → any p (xs ++ ys) ≡ (any p xs || any p ys)
any-append p [] ys = refl
any-append p (x ∷ xs) ys = ground (arith, any-append p xs ys)

launch_upload-ItemOk :
    (item w : UploadItem) (ks : List UploadCall) (rest : List UploadItem)
    → ItemOk ks (item ∷ rest) w
    → ItemOk
        (ks ++ (record { item = item; phase = pending } ∷ []))
        rest
        (patch_item item.id set_uploading w)
launch_upload-ItemOk item w ks rest h = elim (Bool-cases (w.id == item.id)) [
  | inl same ↦
      let a = any-append (uploads_id w.id) ks (record { item = item; phase = pending } ∷ []) in
      rw same (record { uploading = ground (arith, a, same); queued = refl })
  | inr other ↦
      let a = any-append (uploads_id w.id) ks (record { item = item; phase = pending } ∷ []) in
      rw other (record {
        uploading = ground (arith, a, h.uploading);
        queued = ground (arith, other, h.queued);
      })
]

pump_from-ShownOk :
    (q : List UploadItem) (s : AnonymousUploads)
    → All (ItemOk s.calls q) s.items
    → ShownOk (pump_from q s)
unfolding pump_from
pump_from-ShownOk [] s h = h
pump_from-ShownOk (item ∷ rest) s h =
    if_ind ShownOk (ltb s.active max_concurrent_uploads)
      (pump_from-ShownOk rest (launch_upload item s) (
        All-map (ItemOk s.calls (item ∷ rest)) (ItemOk _ rest) (patch_item item.id set_uploading)
          s.items (λ w k. launch_upload-ItemOk item w s.calls rest k) h))
      h

pump-ShownOk : (s : AnonymousUploads) → ShownOk s → ShownOk (pump s)
unfolding pump
pump-ShownOk s h = pump_from-ShownOk s.queue s h

wider-ItemOk :
    (ks : List UploadCall) (q v : List UploadItem) (x w : UploadItem)
    → ItemOk ks (q ++ v) w
    → ItemOk ks (q ++ (x ∷ v)) w
wider-ItemOk ks q v x w h = record {
  uploading = h.uploading;
  queued =
      ground (arith, any-append (has_id w.id) q v, any-append (has_id w.id) q (x ∷ v), h.queued);
}

-- Of new items, those that are queued are the valid ones.
fresh-ItemOk :
    (ks : List UploadCall) (q next : List UploadItem)
    → All (λ w. state_uploading w.state ≡ false) next
    → All (ItemOk ks (q ++ valid_items next)) next
fresh-ItemOk ks q [] h = tt
fresh-ItemOk ks q (x ∷ next) h =
    let valid = valid_items next in
    if_split (λ (v : List UploadItem). All (ItemOk ks (q ++ v)) (x ∷ next)) (state_queued x.state)
      (λ waits. (
        record {
          uploading = ground (arith, h.0);
          queued = ground (arith, any-append (has_id x.id) q (x ∷ valid));
        },
        All-weaken (ItemOk ks (q ++ valid)) (ItemOk ks (q ++ (x ∷ valid))) next
            (λ w k. wider-ItemOk ks q valid x w k) (fresh-ItemOk ks q next h.1),
      ))
      (λ waits. (
        record { uploading = ground (arith, h.0); queued = ground (arith, waits) },
        fresh-ItemOk ks q next h.1,
      ))

state_of_error : (e : Option ItemError) → state_uploading (state_of e) ≡ false
state_of_error none = refl
state_of_error (some e) = refl

next_items-unsent :
    (status : AnonymousStatus) (n : ℕ) (files : List ImageFile)
    → All (λ w. state_uploading w.state ≡ false) (next_items status n files)
unfolding next_items
next_items-unsent status n [] = tt
next_items-unsent status n (f ∷ files) =
    (state_of_error (file_error status f), next_items-unsent status (suc n) files)

longer-ItemOk :
    (ks : List UploadCall) (q more : List UploadItem) (w : UploadItem)
    → ItemOk ks q w
    → ItemOk ks (q ++ more) w
longer-ItemOk ks q more w h = record {
  uploading = h.uploading;
  queued = ground (arith, any-append (has_id w.id) q more, h.queued);
}

-- A call that is not for the item, or not pending, may end.
any-end_call :
    (id : ℕ) (p : CallPhase) (i : ℕ) (ks : List UploadCall) {k : UploadCall}
    → get_elem? ks i ≡ some k
    → is_pending (end_call p k) ≡ false
    → uploads_id id k ≡ false
    → any (uploads_id id) (modify_at (end_call p) i ks) ≡ any (uploads_id id) ks
any-end_call id p i [] g e h = refl
any-end_call id p zero (k ∷ ks) g e h = ground arith
any-end_call id p (suc i) (k ∷ ks) g e h = ground (arith, any-end_call id p i ks g e h)

enqueue-ShownOk :
    (next : List UploadItem) (s : AnonymousUploads)
    → All (λ w. state_uploading w.state ≡ false) next
    → ShownOk s
    → ShownOk (enqueue next s)
unfolding enqueue
enqueue-ShownOk next s u h =
    let valid = valid_items next in
    let shown : All (ItemOk s.calls (s.queue ++ valid)) (next ++ s.items) =
      All-append (ItemOk s.calls (s.queue ++ valid)) next s.items
        (fresh-ItemOk s.calls s.queue next u)
        (All-weaken (ItemOk s.calls s.queue) (ItemOk s.calls (s.queue ++ valid)) s.items
          (λ w k. longer-ItemOk s.calls s.queue valid w k) h) in
    if_split ShownOk (is_nil valid)
      (λ none_valid.
        let same : s.queue ++ valid ≡ s.queue =
          ap (λ v. s.queue ++ v) (is_nil-eq valid none_valid) ∙ append-nil s.queue in
        subst (λ q. All (ItemOk s.calls q) (next ++ s.items)) same shown)
      (λ some_valid. pump-ShownOk (queue_last valid (shown_first next s)) shown)

add_files-ShownOk :
    (status : AnonymousStatus) (files : List ImageFile) (s : AnonymousUploads)
    → ShownOk s
    → ShownOk (add_files status files s)
unfolding add_files
add_files-ShownOk status files s h =
    if_ind ShownOk (not status.enabled || is_nil files) h
      (enqueue-ShownOk (next_items status s.made files) s (next_items-unsent status s.made files) h)

answer_state :
    (a : Answer) (w : UploadItem)
    → (state_uploading (apply_answer a w).state || state_queued (apply_answer a w).state) ≡ false
answer_state (uploaded url) w = refl
answer_state (failed e) w = refl

settled-ItemOk :
    (i : ℕ) (a : Answer) (s : AnonymousUploads) {k : UploadCall} (w : UploadItem)
    → get_elem? s.calls i ≡ some k
    → ItemOk s.calls s.queue w
    → ItemOk
        (modify_at (end_call answered) i s.calls)
        s.queue
        (patch_item k.item.id (apply_answer a) w)
settled-ItemOk i a s {k} w g h = elim (Bool-cases (w.id == k.item.id)) [
  | inl same ↦ rw same (record {
    uploading = ground (arith, answer_state a w);
    queued = ground (arith, answer_state a w);
  })
  | inr other ↦
      let kept = any-end_call w.id answered i s.calls g refl (ground (arith, other)) in
      rw other (record { uploading = rw kept h.uploading; queued = h.queued })
]

settle_call-ShownOk :
    (i : ℕ) (a : Answer) (p : CallPhase) (k : UploadCall) (s : AnonymousUploads)
    → get_elem? s.calls i ≡ some k
    → ShownOk s
    → Leads ShownOk (settle_call i a p k.item s)
unfolding settle_call
settle_call-ShownOk i a pending k s g h =
    All-map (ItemOk s.calls s.queue) (ItemOk _ s.queue) (patch_item k.item.id (apply_answer a))
      s.items (λ w h'. settled-ItemOk i a s w g h') h
settle_call-ShownOk i a _ k s g h = tt

release-ShownOk :
    (i : ℕ) (p : CallPhase) (k : UploadCall) (s : AnonymousUploads)
    → get_elem? s.calls i ≡ some k
    → k.phase ≡ p
    → ShownOk s
    → Leads ShownOk (release i p s)
unfolding release
release-ShownOk i answered k s g e h = pump-ShownOk (freed i s) (
    All-weaken (ItemOk s.calls s.queue) (ItemOk (modify_at (end_call over) i s.calls) s.queue)
      s.items
      (λ w h'. record {
        uploading = rw (any-end_call w.id over i s.calls g refl (ground (arith, e))) h'.uploading;
        queued = h'.queued;
      })
      h)
release-ShownOk i _ k s g e h = tt

queue_step-ShownOk :
    (s : AnonymousUploads) (e : QueueEvent) → ShownOk s → Leads ShownOk (queue_step s e)
unfolding queue_step
queue_step-ShownOk s (add status files) h = add_files-ShownOk status files s h
queue_step-ShownOk s (settles i a) h =
    at-Leads ShownOk s i (get_elem? s.calls i) _ refl
      (λ k g. settle_call-ShownOk i a k.phase k s g h)
queue_step-ShownOk s (finally i) h =
    at-Leads ShownOk s i (get_elem? s.calls i) _ refl
      (λ k g. release-ShownOk i k.phase k s g refl h)

get_or-Leads :
    (P : AnonymousUploads → Type 0) (o : Option AnonymousUploads) (s : AnonymousUploads)
    → P s
    → Leads P o
    → P (get_or o s)
get_or-Leads P none s p h = p
get_or-Leads P (some u) s p h = h

-- What holds of the queue of uploads and of what the page shows of it.
pub record UploadsOk (s : AnonymousUploads) : Type 0 where
  pub pool : PoolOk s
  pub shown : ShownOk s

play-Ok : (es : List QueueEvent) (s : AnonymousUploads) → UploadsOk s → UploadsOk (play s es)
unfolding play
play-Ok [] s v = v
play-Ok (e ∷ es) s v = play-Ok es (get_or (queue_step s e) s) (record {
  pool = get_or-Leads PoolOk (queue_step s e) s v.pool (queue_step-PoolOk s e v.pool);
  shown = get_or-Leads ShownOk (queue_step s e) s v.shown (queue_step-ShownOk s e v.shown);
})

-- After any events: the counter of the page is the number of uploads that are not over, and at most
-- three; a file waits only while three uploads are running; and an item is shown as uploading only while
-- a call for it is unanswered, and as waiting only while it is in the queue.
pub play-UploadsOk : (es : List QueueEvent) → UploadsOk (play no_uploads es)
play-UploadsOk es = play-Ok es no_uploads (record { pool = no_uploads-PoolOk; shown = tt })
