-- ===== src/AnonymousUpload/Order.antt =====
-- The uploads of web/src/pages/AnonymousUpload.tsx go first in, first out: what is uploaded and what
-- waits are the files that were accepted, each once and in their order.
use mathlib.Core.Option.{get_or}
use mathlib.Core.List.{map-append}
use omni_store.Common.{
  ℕ, zero, suc, Bool, true, false, not, ◌||◌, Option, none, some, List, [], ◌∷◌, ◌++◌, map, keep,
  get_elem?, modify_at, append-nil, append_assoc, ltb, if_ind, if_split, if◌then◌else◌, ◌≡◌, refl,
  sym, ap, ◌∙◌,
}
use omni_store.Uri.Bytes.{is_nil}
use omni_store.AnonymousUpload.{
  ImageFile, ItemError, UploadItem, AnonymousStatus, max_concurrent_uploads, file_error,
  state_queued, state_of,
}
use omni_store.AnonymousUpload.Queue.{
  Answer, CallPhase, pending, answered, over, UploadCall, AnonymousUploads, no_uploads,
  launch_upload, pump_from, pump, next_items, valid_items, shown_first, queue_last, enqueue,
  add_files, end_call, freed, QueueEvent, add, settles, finally, settle_call, release, queue_step,
  play,
}
use omni_store.AnonymousUpload.Pool.{Leads, at-Leads}

abbrev is_fine : Option ItemError → Bool
is_fine none = true
is_fine (some e) = false

-- The files that the page accepts of those added, by the status of the service at the time.
abbrev pub accepted_of : AnonymousStatus → Bool → List ImageFile → List ImageFile
accepted_of status on files = if on then keep (λ f. is_fine (file_error status f)) files else []

-- The specification: a queue without bound, of which any number can be uploaded at a time.
abbrev pub adds : QueueEvent → List ImageFile
adds (add status files) = accepted_of status status.enabled files
adds _ = []

abbrev pub accepted : List QueueEvent → List ImageFile
accepted [] = []
accepted (e ∷ es) = adds e ++ accepted es

abbrev item_file : UploadItem → ImageFile
item_file item = item.file

abbrev call_file : UploadCall → ImageFile
call_file k = k.item.file

-- The files that were sent to the server, and those that wait for it.
abbrev pub sent : AnonymousUploads → List ImageFile
sent s = map call_file s.calls

abbrev pub waiting : AnonymousUploads → List ImageFile
waiting s = map item_file s.queue

abbrev taken : AnonymousUploads → List ImageFile
taken s = sent s ++ waiting s

map-end_call :
    (p : CallPhase) (i : ℕ) (ks : List UploadCall)
    → map call_file (modify_at (end_call p) i ks) ≡ map call_file ks
map-end_call p i [] = refl
map-end_call p zero (k ∷ ks) = refl
map-end_call p (suc i) (k ∷ ks) = ap (λ r. call_file k ∷ r) (map-end_call p i ks)

launch_upload-sent :
    (item : UploadItem) (s : AnonymousUploads)
    → sent (launch_upload item s) ≡ sent s ++ (item.file ∷ [])
launch_upload-sent item s =
    map-append call_file s.calls (record { item = item; phase = pending } ∷ [])

-- Pumping moves files from the queue to the server, from the first one on.
pump_from-taken :
    (q : List UploadItem) (s : AnonymousUploads) → taken (pump_from q s) ≡ sent s ++ map item_file q
unfolding pump_from
pump_from-taken [] s = refl
pump_from-taken (item ∷ rest) s =
    if_ind (λ (u : AnonymousUploads). taken u ≡ sent s ++ map item_file (item ∷ rest))
      (ltb s.active max_concurrent_uploads)
      (pump_from-taken rest (launch_upload item s)
        ∙ ap (λ l. l ++ map item_file rest) (launch_upload-sent item s)
        ∙ append_assoc (sent s) (item.file ∷ []) (map item_file rest))
      refl

pump-taken : (s : AnonymousUploads) → taken (pump s) ≡ taken s
unfolding pump
pump-taken s = pump_from-taken s.queue s

next_item-valid :
    (e : Option ItemError) (item : UploadItem) (f : ImageFile) (xs : List UploadItem)
    (ys : List ImageFile)
    → item.file ≡ f
    → map item_file xs ≡ ys
    → map item_file (if state_queued (state_of e) then item ∷ xs else xs)
      ≡ (if is_fine e then f ∷ ys else ys)
next_item-valid none item f xs ys h k = cc
next_item-valid (some e) item f xs ys h k = k

next_items-valid :
    (status : AnonymousStatus) (n : ℕ) (files : List ImageFile)
    → map item_file (valid_items (next_items status n files))
      ≡ keep (λ f. is_fine (file_error status f)) files
unfolding next_items
next_items-valid status n [] = refl
next_items-valid status n (f ∷ files) =
    next_item-valid (file_error status f) _ f _ _ refl (next_items-valid status (suc n) files)

nothing-taken : (xs : List UploadItem) → is_nil xs ≡ true → map item_file xs ≡ []
nothing-taken [] h = refl
nothing-taken (x ∷ xs) h = cc

enqueue-taken :
    (next : List UploadItem) (s : AnonymousUploads)
    → taken (enqueue next s) ≡ taken s ++ map item_file (valid_items next)
unfolding enqueue
enqueue-taken next s =
    if_split (λ (u : AnonymousUploads). taken u ≡ taken s ++ map item_file (valid_items next))
      (is_nil (valid_items next))
      (λ none_valid. rw (nothing-taken (valid_items next) none_valid) (sym (append-nil (taken s))))
      (λ some_valid.
        pump-taken (queue_last (valid_items next) (shown_first next s))
        ∙ ap (λ l. sent s ++ l) (map-append item_file s.queue (valid_items next))
        ∙ sym (append_assoc (sent s) (waiting s) (map item_file (valid_items next))))

added-taken :
    (status : AnonymousStatus) (on : Bool) (files : List ImageFile) (s : AnonymousUploads)
    → taken (if not on || is_nil files then s else enqueue (next_items status s.made files) s)
      ≡ taken s ++ accepted_of status on files
added-taken status false files s = sym (append-nil (taken s))
added-taken status true [] s = sym (append-nil (taken s))
added-taken status true (f ∷ files) s =
    enqueue-taken (next_items status s.made (f ∷ files)) s
    ∙ ap (λ l. taken s ++ l) (next_items-valid status s.made (f ∷ files))

settle_call-taken :
    (i : ℕ) (a : Answer) (p : CallPhase) (item : UploadItem) (s : AnonymousUploads)
    → Leads (λ u. taken u ≡ taken s) (settle_call i a p item s)
unfolding settle_call
settle_call-taken i a pending item s = ap (λ l. l ++ waiting s) (map-end_call answered i s.calls)
settle_call-taken i a _ item s = tt

release-taken :
    (i : ℕ) (p : CallPhase) (s : AnonymousUploads) → Leads (λ u. taken u ≡ taken s) (release i p s)
unfolding release
release-taken i answered s =
    pump-taken (freed i s) ∙ ap (λ l. l ++ waiting s) (map-end_call over i s.calls)
release-taken i _ s = tt

kept :
    (s : AnonymousUploads) (o : Option AnonymousUploads)
    → Leads (λ u. taken u ≡ taken s) o
    → taken (get_or o s) ≡ taken s ++ []
kept s none h = sym (append-nil (taken s))
kept s (some u) h = h ∙ sym (append-nil (taken s))

queue_step-taken :
    (s : AnonymousUploads) (e : QueueEvent) → taken (get_or (queue_step s e) s) ≡ taken s ++ adds e
unfolding queue_step add_files
queue_step-taken s (add status files) = added-taken status status.enabled files s
queue_step-taken s (settles i a) = kept s (queue_step s (settles i a)) (
    at-Leads (λ u. taken u ≡ taken s) s i (get_elem? s.calls i) _ refl
      (λ k g. settle_call-taken i a k.phase k.item s))
queue_step-taken s (finally i) = kept s (queue_step s (finally i)) (
    at-Leads (λ u. taken u ≡ taken s) s i (get_elem? s.calls i) _ refl
      (λ k g. release-taken i k.phase s))

play-taken :
    (es : List QueueEvent) (s : AnonymousUploads) → taken (play s es) ≡ taken s ++ accepted es
unfolding play
play-taken [] s = sym (append-nil (taken s))
play-taken (e ∷ es) s =
    play-taken es (get_or (queue_step s e) s)
    ∙ ap (λ l. l ++ accepted es) (queue_step-taken s e)
    ∙ append_assoc (taken s) (adds e) (accepted es)

-- Whatever is added and answered, in whatever order: the files that were sent to the server, in the order
-- of sending, and then those that wait, are the files that the page accepted, in the order that they
-- were added.
pub sent-waiting-accepted :
    (es : List QueueEvent) → sent (play no_uploads es) ++ waiting (play no_uploads es) ≡ accepted es
sent-waiting-accepted es = play-taken es no_uploads
