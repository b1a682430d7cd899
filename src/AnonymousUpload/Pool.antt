-- ===== src/AnonymousUpload/Pool.antt =====
-- The count of the uploads in web/src/pages/AnonymousUpload.tsx: three at most, and none too few.
use omni_store.Common.{
  ℕ, ◌+◌, ◌≤◌, ◌<◌, Bool, true, false, not, Option, none, some, List, [], ◌∷◌, ◌++◌, get_elem?,
  length, tally, tally-modify_at, ltb, if_split, if_ind, ◌||◌, ◌≡◌, refl, arith,
}
use omni_store.Uri.Bytes.{is_nil}
use omni_store.AnonymousUpload.{ImageFile, UploadItem, AnonymousStatus, max_concurrent_uploads}
use omni_store.AnonymousUpload.Queue.{
  Answer, CallPhase, pending, answered, over, UploadCall, AnonymousUploads, no_uploads,
  launch_upload, pump_from, pump, next_items, valid_items, shown_first, queue_last, freed, enqueue,
  add_files, end_call, QueueEvent, add, settles, finally, settle_call, release, at_call, queue_step,
}

-- A call that `activeUploadCountRef` counts.
abbrev pub is_open : UploadCall → Bool
is_open k = elim k.phase [ over ↦ false | _ ↦ true ]

-- The counter is right, and at most three.
pub record Counted (s : AnonymousUploads) : Type 0 where
  pub counted : tally is_open s.calls ≡ s.active
  pub bounded : s.active ≤ 3

-- Besides, an item waits only while three uploads are running.
pub record PoolOk (s : AnonymousUploads) : Type 0 where
  pub count : Counted s
  pub full : 0 < length s.queue → s.active ≡ 3

tally-append :
    (p : UploadCall → Bool) (xs ys : List UploadCall) → tally p (xs ++ ys) ≡ tally p xs + tally p ys
tally-append p [] ys = omega arith
tally-append p (x ∷ xs) ys = omega (arith, tally-append p xs ys)

launch_upload-Counted :
    (item : UploadItem) (s : AnonymousUploads)
    → s.active < 3
    → Counted s
    → Counted (launch_upload item s)
launch_upload-Counted item s l v = record {
  counted = omega (
    arith,
    v.counted,
    tally-append is_open s.calls (record { item = item; phase = pending } ∷ []),
  );
  bounded = omega arith;
}

pump_from-PoolOk : (q : List UploadItem) (s : AnonymousUploads) → Counted s → PoolOk (pump_from q s)
unfolding pump_from
pump_from-PoolOk [] s v = record {
  count = record { counted = v.counted; bounded = v.bounded };
  full = λ l. absurd (omega arith);
}
pump_from-PoolOk (item ∷ rest) s v =
    if_split PoolOk (ltb s.active max_concurrent_uploads)
      (λ free.
        pump_from-PoolOk rest (launch_upload item s)
          (launch_upload-Counted item s (ground (arith, free)) v))
      (λ busy. record {
        count = record { counted = v.counted; bounded = v.bounded };
        full = λ l. ground (arith, busy, v.bounded);
      })

pump-PoolOk : (s : AnonymousUploads) → Counted s → PoolOk (pump s)
unfolding pump
pump-PoolOk s v = pump_from-PoolOk s.queue s v

enqueue-PoolOk :
    (next : List UploadItem) (s : AnonymousUploads) → PoolOk s → PoolOk (enqueue next s)
unfolding enqueue
enqueue-PoolOk next s v =
    if_ind PoolOk (is_nil (valid_items next))
      (record {
        count = record { counted = v.count.counted; bounded = v.count.bounded };
        full = v.full;
      })
      (pump-PoolOk (queue_last (valid_items next) (shown_first next s))
        (record { counted = v.count.counted; bounded = v.count.bounded }))

add_files-PoolOk :
    (status : AnonymousStatus) (files : List ImageFile) (s : AnonymousUploads)
    → PoolOk s
    → PoolOk (add_files status files s)
unfolding add_files
add_files-PoolOk status files s v =
    if_ind PoolOk (not status.enabled || is_nil files) v
      (enqueue-PoolOk (next_items status s.made files) s v)

-- What a step that is made leads to.
abbrev pub Leads : (AnonymousUploads → Type 0) → Option AnonymousUploads → Type 0
Leads P none = Unit
Leads P (some s) = P s

settle_call-PoolOk :
    (i : ℕ) (a : Answer) (p : CallPhase) (k : UploadCall) (s : AnonymousUploads)
    → get_elem? s.calls i ≡ some k
    → k.phase ≡ p
    → PoolOk s
    → Leads PoolOk (settle_call i a p k.item s)
unfolding settle_call
settle_call-PoolOk i a pending k s g e v = record {
  count = record {
    counted =
        ground (arith, e, v.count.counted, tally-modify_at is_open (end_call answered) i s.calls g);
    bounded = v.count.bounded;
  };
  full = v.full;
}
settle_call-PoolOk i a _ k s g e v = tt

release-PoolOk :
    (i : ℕ) (p : CallPhase) (k : UploadCall) (s : AnonymousUploads)
    → get_elem? s.calls i ≡ some k
    → k.phase ≡ p
    → PoolOk s
    → Leads PoolOk (release i p s)
unfolding release
release-PoolOk i answered k s g e v =
    let t = tally-modify_at is_open (end_call over) i s.calls g in
    pump-PoolOk (freed i s) (record {
      counted = ground (arith, e, v.count.counted, t);
      bounded = omega (arith, v.count.bounded);
    })
release-PoolOk i _ k s g e v = tt

pub at-Leads :
    (P : AnonymousUploads → Type 0) (s : AnonymousUploads) (i : ℕ) (o : Option UploadCall)
    (f : UploadCall → Option AnonymousUploads)
    → get_elem? s.calls i ≡ o
    → ((k : UploadCall) → get_elem? s.calls i ≡ some k → Leads P (f k))
    → Leads P (at_call o f)
at-Leads P s i none f g h = tt
at-Leads P s i (some k) f g h = h k g

-- Every event keeps the count.
pub queue_step-PoolOk :
    (s : AnonymousUploads) (e : QueueEvent) → PoolOk s → Leads PoolOk (queue_step s e)
unfolding queue_step
queue_step-PoolOk s (add status files) v = add_files-PoolOk status files s v
queue_step-PoolOk s (settles i a) v =
    at-Leads PoolOk s i (get_elem? s.calls i) _ refl
      (λ k g. settle_call-PoolOk i a k.phase k s g refl v)
queue_step-PoolOk s (finally i) v =
    at-Leads PoolOk s i (get_elem? s.calls i) _ refl (λ k g. release-PoolOk i k.phase k s g refl v)

pub no_uploads-PoolOk : PoolOk no_uploads
no_uploads-PoolOk = record {
  count = record { counted = refl; bounded = omega arith };
  full = λ l. absurd (omega arith);
}
