-- ===== src/UploadTask/Taking.antt =====
-- takeNext of web/src/utils/uploadTask.ts: `nextIndex` moves past no queued item but the one taken.
use omni_store.Common.{
  ℕ, zero, suc, ◌+◌, ◌-◌, ◌≤◌, Bool, true, false, Option, none, some, List, [], ◌∷◌, map, length,
  get_elem?, modify_at, drop, if◌then◌else◌, ◌≡◌, refl, sym, ◌∙◌, tally, arith, Bool-cases, inl,
  inr,
}
use omni_store.UploadTask.Defs.{Slot, UploadTaskController}
use omni_store.UploadTask.Items.{slot_queued}
use omni_store.UploadTask.Control.{take_from, worker_takes, resume_worker, begin_upload}

-- None of the first `n` items is queued.
abbrev pub Passed : ℕ → List Slot → Type 0
Passed zero xs = Unit
Passed (suc n) [] = Unit
Passed (suc n) (x ∷ xs) = (slot_queued x ≡ false) × Passed n xs

pub record Found (n : ℕ) (xs : List Slot) (m i : ℕ) : Type 0 where
  pub offset : ℕ
  pub slot : Slot
  pub at : i ≡ n + offset
  pub after : m ≡ suc i
  pub there : get_elem? xs offset ≡ some slot
  pub queued : slot_queued slot ≡ true
  pub passed : Passed offset xs

take_from-Found : (n : ℕ) (xs : List Slot) {m i : ℕ} → take_from n xs ≡ (m, some i) → Found n xs m i
unfolding take_from
take_from-Found n [] h = absurd (ground arith)
take_from-Found n (x ∷ xs) {m} {i} h = elim (Bool-cases (slot_queued x)) [
  | inl q ↦ record {
    offset = 0;
    slot = x;
    at = ground arith;
    after = ground arith;
    there = refl;
    queued = q;
    passed = tt;
  }
  | inr q ↦
      let f = take_from-Found (suc n) xs {m = m} {i = i} (ground arith) in
      record {
        offset = suc f.offset;
        slot = f.slot;
        at = omega (arith, f.at);
        after = f.after;
        there = f.there;
        queued = f.queued;
        passed = (q, f.passed);
      }
]

take_from-missed :
    (n : ℕ) (xs : List Slot) {m : ℕ}
    → take_from n xs ≡ (m, none)
    → (m ≡ n + length xs) × Passed (length xs) xs
unfolding take_from
take_from-missed n [] h = (ground arith, tt)
take_from-missed n (x ∷ xs) {m} h = elim (Bool-cases (slot_queued x)) [
  | inl q ↦ absurd (ground arith)
  | inr q ↦
      let (e, p) = take_from-missed (suc n) xs {m = m} (ground arith) in (omega (arith, e), (q, p))
]

get_elem?-drop :
    (n k : ℕ) (xs : List Slot) {i : ℕ} → i ≡ n + k → get_elem? (drop n xs) k ≡ get_elem? xs i
get_elem?-drop zero k xs {i} e = let same : i ≡ k = omega arith in rw same
get_elem?-drop (suc n) k [] e = refl
get_elem?-drop (suc n) k (x ∷ xs) {i = zero} e = absurd (omega arith)
get_elem?-drop (suc n) k (x ∷ xs) {i = suc i} e = get_elem?-drop n k xs (omega arith)

Passed-drop :
    (n k : ℕ) (xs : List Slot) {i : ℕ}
    → i ≡ n + k
    → Passed n xs
    → Passed k (drop n xs)
    → Passed i xs
Passed-drop zero k xs {i} e h p = let same : i ≡ k = omega arith in rw same p
Passed-drop (suc n) k [] {i = zero} e h p = tt
Passed-drop (suc n) k [] {i = suc i} e h p = tt
Passed-drop (suc n) k (x ∷ xs) {i = zero} e h p = tt
Passed-drop (suc n) k (x ∷ xs) {i = suc i} e h p = (h.0, Passed-drop n k xs (omega arith) h.1 p)

-- A round of `takeNext` in the whole list.
pub record Taken (xs : List Slot) (m i : ℕ) : Type 0 where
  pub slot : Slot
  pub after : m ≡ suc i
  pub there : get_elem? xs i ≡ some slot
  pub queued : slot_queued slot ≡ true
  pub passed : Passed i xs

pub take_from-Taken :
    (n : ℕ) (xs : List Slot) {m i : ℕ}
    → Passed n xs
    → take_from n (drop n xs) ≡ (m, some i)
    → Taken xs m i
take_from-Taken n xs p h =
    let f = take_from-Found n (drop n xs) h in
    record {
      slot = f.slot;
      after = f.after;
      there = sym (get_elem?-drop n f.offset xs f.at) ∙ f.there;
      queued = f.queued;
      passed = Passed-drop n f.offset xs f.at p f.passed;
    }

length-le-drop : (n : ℕ) (xs : List Slot) → length xs ≤ n + length (drop n xs)
length-le-drop zero xs = omega arith
length-le-drop (suc n) [] = omega arith
length-le-drop (suc n) (x ∷ xs) = omega (arith, length-le-drop n xs)

-- Where it finds none, no item at all is queued.
pub take_from-none :
    (n : ℕ) (xs : List Slot) {m : ℕ}
    → Passed n xs
    → take_from n (drop n xs) ≡ (m, none)
    → (length xs ≤ m) × Passed m xs
take_from-none n xs {m} p h =
    let (e, q) = take_from-missed n (drop n xs) h in
    let enough : length xs ≤ n + length (drop n xs) = length-le-drop n xs in
    (omega arith, Passed-drop n (length (drop n xs)) xs e p q)

pub Passed-modify_at :
    (f : Slot → Slot) (i n : ℕ) (xs : List Slot)
    → ((s : Slot) → slot_queued s ≡ false → slot_queued (f s) ≡ false)
    → Passed n xs
    → Passed n (modify_at f i xs)
Passed-modify_at f i zero xs h p = tt
Passed-modify_at f i (suc n) [] h p = tt
Passed-modify_at f zero (suc n) (x ∷ xs) h p = (h x p.0, p.1)
Passed-modify_at f (suc i) (suc n) (x ∷ xs) h p = (p.0, Passed-modify_at f i n xs h p.1)

pub Passed-map :
    (f : Slot → Slot) (n : ℕ) (xs : List Slot)
    → ((s : Slot) → slot_queued s ≡ false → slot_queued (f s) ≡ false)
    → Passed n xs
    → Passed n (map f xs)
Passed-map f zero xs h p = tt
Passed-map f (suc n) [] h p = tt
Passed-map f (suc n) (x ∷ xs) h p = (h x p.0, Passed-map f n xs h p.1)

-- Once the item at `i` has been taken, the items up to it are no longer queued.
pub Passed-suc :
    (f : Slot → Slot) (i : ℕ) (xs : List Slot)
    → ((s : Slot) → slot_queued (f s) ≡ false)
    → Passed i xs
    → Passed (suc i) (modify_at f i xs)
Passed-suc f i [] h p = tt
Passed-suc f zero (x ∷ xs) h p = (h x, tt)
Passed-suc f (suc i) (x ∷ xs) h p = (p.0, Passed-suc f i xs h p.1)

-- Where `nextIndex` has reached the end of the list, nothing is queued.
pub Passed-tally : (n : ℕ) (xs : List Slot) → length xs ≤ n → Passed n xs → tally slot_queued xs ≡ 0
Passed-tally n [] l p = refl
Passed-tally zero (x ∷ xs) l p = absurd (omega arith)
Passed-tally (suc n) (x ∷ xs) l p = ground (arith, p.0, Passed-tally n xs (omega arith) p.1)

-- What a round of a worker's loop comes to: it returns as the task is being cancelled, it returns as
-- there is nothing left, or it takes the first queued item.
pub data Round (c u : UploadTaskController) : Type 0 where
  stops :
      c.cancel_requested ≡ true
      → u ≡ record c { ready = c.ready - 1; returned = c.returned + 1 }
      → Round c u
  runs_dry :
      (m : ℕ)
      → c.cancel_requested ≡ false
      → length c.items ≤ m
      → Passed m c.items
      → u ≡ record c { next_index = m; ready = c.ready - 1; returned = c.returned + 1 }
      → Round c u
  takes :
      (m i : ℕ)
      → c.cancel_requested ≡ false
      → Taken c.items m i
      → u ≡ begin_upload i (record c { next_index = m; ready = c.ready - 1 })
      → Round c u

takes_cases :
    (c : UploadTaskController) (t : ℕ × Option ℕ)
    → take_from c.next_index (drop c.next_index c.items) ≡ t
    → c.cancel_requested ≡ false
    → Passed c.next_index c.items
    → Round c (worker_takes t c)
takes_cases c (m, none) e k p =
    let (l, q) = take_from-none c.next_index c.items p e in runs_dry m k l q refl
takes_cases c (m, some i) e k p = takes m i k (take_from-Taken c.next_index c.items p e) refl

Round-cases :
    (c : UploadTaskController) (k : Bool)
    → c.cancel_requested ≡ k
    → Passed c.next_index c.items
    → Round c (
        if k
        then record c { ready = c.ready - 1; returned = c.returned + 1 }
        else worker_takes (take_from c.next_index (drop c.next_index c.items)) c)
Round-cases c true k p = stops k refl
Round-cases c false k p =
    takes_cases c (take_from c.next_index (drop c.next_index c.items)) refl k p

pub resume_worker-Round :
    (c : UploadTaskController) → Passed c.next_index c.items → Round c (resume_worker c)
unfolding resume_worker
resume_worker-Round c p = Round-cases c c.cancel_requested refl p

pub Passed-get_elem? :
    (n i : ℕ) (xs : List Slot) {s : Slot}
    → length xs ≤ n
    → Passed n xs
    → get_elem? xs i ≡ some s
    → slot_queued s ≡ false
Passed-get_elem? n i [] l p g = absurd (ground arith)
Passed-get_elem? zero i (x ∷ xs) l p g = absurd (omega arith)
Passed-get_elem? (suc n) zero (x ∷ xs) l p g = ground arith
Passed-get_elem? (suc n) (suc i) (x ∷ xs) l p g = Passed-get_elem? n i xs (omega arith) p.1 g
