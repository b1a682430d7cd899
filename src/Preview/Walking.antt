-- ===== src/Preview/Walking.antt =====
-- Going through the files of the layer of web/src/preview/PreviewModal.tsx with its keys.
use mathlib.Core.Path.{subst}
use omni_store.Common.{
  ℕ, zero, suc, ◌+◌, ◌-◌, ◌<◌, Option, none, some, List, [], ◌∷◌, get_elem?, length, ltb,
  if◌then◌else◌, if_split, ◌≡◌, refl, ap, arith,
}
use omni_store.Preview.Modal.{
  PreviewItem, PreviewState, PreviewInput, escape, arrow_left, arrow_right, press, if_open,
  press_all,
}

-- A state of the same files whose index is one of them.
pub record InRange (items : List PreviewItem) (s : PreviewState) : Type 0 where
  pub same : s.items ≡ items
  pub index : s.index < length items

some-InRange :
    (items : List PreviewItem) (s t : PreviewState)
    → some s ≡ some t
    → InRange items s
    → InRange items t
some-InRange items s t e h = let same : s ≡ t = cc in subst (InRange items) same h

press-InRange :
    (items : List PreviewItem) (k : PreviewInput) (s t : PreviewState)
    → InRange items s
    → press k s ≡ some t
    → InRange items t
unfolding press
press-InRange items escape s t h e = cc
press-InRange items arrow_left s t h e =
    if_split (λ (o : Option PreviewState). o ≡ some t → InRange items t) (ltb 0 s.index)
      (λ y f.
        some-InRange items (record s { index = s.index - 1 }) t f
          (record { same = h.same; index = (let i = h.index in omega arith) }))
      (λ y f. some-InRange items s t f h) e
press-InRange items arrow_right s t h e =
    if_split (λ (o : Option PreviewState). o ≡ some t → InRange items t)
      (ltb s.index (length s.items - 1))
      (λ y f.
        some-InRange items (record s { index = suc s.index }) t f
          (record { same = h.same; index = ground (arith, y, h.same) }))
      (λ y f. some-InRange items s t f h) e

if_open-InRange :
    (items : List PreviewItem) (k : PreviewInput) (o : Option PreviewState) (t : PreviewState)
    → ((s : PreviewState) → o ≡ some s → InRange items s)
    → if_open (press k) o ≡ some t
    → InRange items t
if_open-InRange items k none t h e = cc
if_open-InRange items k (some s) t h e = press-InRange items k s t (h s refl) e

-- Keys keep the index in range, as long as the layer is open.
pub press_all-InRange :
    (items : List PreviewItem) (ks : List PreviewInput) (o : Option PreviewState) (t : PreviewState)
    → ((s : PreviewState) → o ≡ some s → InRange items s)
    → press_all ks o ≡ some t
    → InRange items t
press_all-InRange items [] o t h e = h t e
press_all-InRange items (k ∷ ks) o t h e =
    press_all-InRange items ks (if_open (press k) o) t (λ s f. if_open-InRange items k o s h f) e

-- The layer at the i-th file.
abbrev pub at : List PreviewItem → ℕ → PreviewState
at items i = record { items = items; index = i }

rights : ℕ → List PreviewInput
rights zero = []
rights (suc n) = arrow_right ∷ rights n

lefts : ℕ → List PreviewInput
lefts zero = []
lefts (suc n) = arrow_left ∷ lefts n

go_right :
    (n : ℕ) (items : List PreviewItem) (i j : ℕ)
    → i + n ≡ j
    → j < length items
    → press_all (rights n) (some (at items i)) ≡ some (at items j)
unfolding press rights
go_right zero items i j e h = ap (λ k. some (at items k)) (omega arith)
go_right (suc n) items i j e h =
    if_split (λ (o : Option PreviewState). press_all (rights n) o ≡ some (at items j))
      (ltb i (length items - 1)) (λ y. go_right n items (suc i) j (omega arith) h)
      (λ y. ground (arith, e, h, y))

go_left :
    (n : ℕ) (items : List PreviewItem) (i j : ℕ)
    → j + n ≡ i
    → press_all (lefts n) (some (at items i)) ≡ some (at items j)
unfolding press lefts
go_left zero items i j e = ap (λ k. some (at items k)) (omega arith)
go_left (suc n) items i j e =
    if_split (λ (o : Option PreviewState). press_all (lefts n) o ≡ some (at items j)) (ltb 0 i)
      (λ y. go_left n items (i - 1) j (omega arith)) (λ y. ground (arith, e, y))

-- The keys that lead from one file to another.
pub keys_to : ℕ → ℕ → List PreviewInput
keys_to i j = if ltb i j then rights (j - i) else lefts (i - j)

pub keys_to-at :
    (items : List PreviewItem) (i j : ℕ)
    → j < length items
    → press_all (keys_to i j) (some (at items i)) ≡ some (at items j)
unfolding keys_to
keys_to-at items i j h =
    if_split (λ (ks : List PreviewInput). press_all ks (some (at items i)) ≡ some (at items j))
      (ltb i j) (λ y. go_right (j - i) items i j (ground (arith, y)) h)
      (λ y. go_left (i - j) items i j (ground (arith, y)))

-- Each index in range is that of a file.
pub get_elem-in_range {ℓ} :
    {A : Type ℓ} (xs : List A) (i : ℕ) → i < length xs → (x : A) × (get_elem? xs i ≡ some x)
get_elem-in_range [] i h = absurd (omega arith)
get_elem-in_range (x ∷ xs) zero h = (x, refl)
get_elem-in_range (x ∷ xs) (suc i) h = get_elem-in_range xs i (omega arith)
