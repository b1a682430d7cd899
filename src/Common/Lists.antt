-- ===== src/Common/Lists.antt =====
-- Lists measured and indexed by native numbers, Boolean searches, and predicates on all members.
use Prim.Native.Nat.{ℕ, zero, suc, ◌+◌, ◌≤◌, ◌<◌, min}
use mathlib.Core.Path.{◌≡◌, refl, ap, subst}
use mathlib.Core.Bool.{Bool, true, false, ◌&&◌, ◌||◌}
use mathlib.Core.List.{List, [], ◌∷◌, ◌++◌, map}
use mathlib.Core.Option.{Option, none, some}
use native.Mathlib.Omega.{arith}
use omni_store.Common.Tests.{if◌then◌else◌}

module _ {ℓ} {A : Type ℓ} where
  abbrev pub length : List A → ℕ
  length [] = 0
  length (x ∷ xs) = suc (length xs)

  abbrev pub get_elem? : List A → ℕ → Option A
  get_elem? [] i = none
  get_elem? (x ∷ xs) zero = some x
  get_elem? (x ∷ xs) (suc i) = get_elem? xs i

  -- The element at an index replaced by its image; out of range nothing changes.
  abbrev pub modify_at : (A → A) → ℕ → List A → List A
  modify_at f i [] = []
  modify_at f zero (x ∷ xs) = f x ∷ xs
  modify_at f (suc i) (x ∷ xs) = x ∷ modify_at f i xs

  abbrev pub take : ℕ → List A → List A
  take zero xs = []
  take (suc n) [] = []
  take (suc n) (x ∷ xs) = x ∷ take n xs

  abbrev pub drop : ℕ → List A → List A
  drop zero xs = xs
  drop (suc n) [] = []
  drop (suc n) (x ∷ xs) = drop n xs

  -- `Array.some`, `Array.every`, `Array.filter` and the count of the members that pass a test.
  abbrev pub any : (A → Bool) → List A → Bool
  any p [] = false
  any p (x ∷ xs) = p x || any p xs

  abbrev pub every : (A → Bool) → List A → Bool
  every p [] = true
  every p (x ∷ xs) = p x && every p xs

  abbrev pub keep : (A → Bool) → List A → List A
  keep p [] = []
  keep p (x ∷ xs) = let rest = keep p xs in if p x then x ∷ rest else rest

  abbrev pub tally : (A → Bool) → List A → ℕ
  tally p [] = 0
  tally p (x ∷ xs) = (if p x then 1 else 0) + tally p xs

  abbrev pub sum_by : (A → ℕ) → List A → ℕ
  sum_by w [] = 0
  sum_by w (x ∷ xs) = w x + sum_by w xs

  pub get_elem?-map :
      (f : A → A) (i : ℕ) (xs : List A) {x : A}
      → get_elem? xs i ≡ some x
      → get_elem? (map f xs) i ≡ some (f x)
  get_elem?-map f i [] g = absurd (ground arith)
  get_elem?-map f zero (y ∷ xs) g = ground arith
  get_elem?-map f (suc i) (y ∷ xs) g = get_elem?-map f i xs g

  pub length-append : (xs ys : List A) → length (xs ++ ys) ≡ length xs + length ys
  length-append [] ys = omega arith
  length-append (x ∷ xs) ys = omega (arith, length-append xs ys)

  pub length-modify_at : (f : A → A) (i : ℕ) (xs : List A) → length (modify_at f i xs) ≡ length xs
  length-modify_at f i [] = refl
  length-modify_at f zero (x ∷ xs) = refl
  length-modify_at f (suc i) (x ∷ xs) = ap suc (length-modify_at f i xs)

  pub length-take : (n : ℕ) (xs : List A) → length (take n xs) ≡ min n (length xs)
  length-take zero xs = omega arith
  length-take (suc n) [] = omega arith
  length-take (suc n) (x ∷ xs) = omega (arith, length-take n xs)

  pub length-keep-le : (p : A → Bool) (xs : List A) → length (keep p xs) ≤ length xs
  length-keep-le p [] = omega arith
  length-keep-le p (x ∷ xs) = ground (arith, length-keep-le p xs)

  -- What a test counts before a member is changed, set against what it counts after.
  pub tally-modify_at :
      (p : A → Bool) (f : A → A) (i : ℕ) (xs : List A) {x : A}
      → get_elem? xs i ≡ some x
      → tally p (modify_at f i xs) + (if p x then 1 else 0)
        ≡ tally p xs + (if p (f x) then 1 else 0)
  tally-modify_at p f i [] h = absurd (ground arith)
  tally-modify_at p f zero (y ∷ xs) h = ground arith
  tally-modify_at p f (suc i) (y ∷ xs) h = omega (arith, tally-modify_at p f i xs h)

  pub sum_by-modify_at :
      (w : A → ℕ) (f : A → A) (i : ℕ) (xs : List A) {x : A}
      → get_elem? xs i ≡ some x
      → sum_by w (modify_at f i xs) + w x ≡ sum_by w xs + w (f x)
  sum_by-modify_at w f i [] h = absurd (ground arith)
  sum_by-modify_at w f zero (y ∷ xs) {x} h = let same : y ≡ x = cc in rw same (omega arith)
  sum_by-modify_at w f (suc i) (y ∷ xs) h = omega (arith, sum_by-modify_at w f i xs h)

  pub sum_by-map-le :
      (w : A → ℕ) (f : A → A) (xs : List A)
      → ((x : A) → w (f x) ≤ w x)
      → sum_by w (map f xs) ≤ sum_by w xs
  sum_by-map-le w f [] h = omega arith
  sum_by-map-le w f (x ∷ xs) h = omega (arith, h x, sum_by-map-le w f xs h)

  pub tally-pos :
      (p : A → Bool) (xs : List A) (i : ℕ) {x : A}
      → get_elem? xs i ≡ some x
      → p x ≡ true
      → 0 < tally p xs
  tally-pos p [] i g h = absurd (ground arith)
  tally-pos p (y ∷ xs) zero g h = ground arith
  tally-pos p (y ∷ xs) (suc i) g h = omega (arith, tally-pos p xs i g h)

module _ {ℓ κ} {A : Type ℓ} where
  abbrev pub All : (A → Type κ) → List A → Type κ
  All P [] = Unit
  All P (x ∷ xs) = P x × All P xs

  pub All-append : (P : A → Type κ) (xs ys : List A) → All P xs → All P ys → All P (xs ++ ys)
  All-append P [] ys h k = k
  All-append P (x ∷ xs) ys h k = (h.0, All-append P xs ys h.1 k)

  pub All-modify_at :
      (P : A → Type κ) (f : A → A) (i : ℕ) (xs : List A) {x : A}
      → get_elem? xs i ≡ some x
      → P (f x)
      → All P xs
      → All P (modify_at f i xs)
  All-modify_at P f i [] g h a = a
  All-modify_at P f zero (y ∷ xs) {x} g h a =
      let same : x ≡ y = cc in (subst (λ z. P (f z)) same h, a.1)
  All-modify_at P f (suc i) (y ∷ xs) g h a = (a.0, All-modify_at P f i xs g h a.1)

  -- The same where the new member is good whatever the old one was.
  pub All-modify_at_any :
      (P : A → Type κ) (f : A → A) (i : ℕ) (xs : List A)
      → ((x : A) → P (f x))
      → All P xs
      → All P (modify_at f i xs)
  All-modify_at_any P f i [] h a = a
  All-modify_at_any P f zero (y ∷ xs) h a = (h y, a.1)
  All-modify_at_any P f (suc i) (y ∷ xs) h a = (a.0, All-modify_at_any P f i xs h a.1)

  pub All-get_elem? :
      (P : A → Type κ) (i : ℕ) (xs : List A) {x : A} → get_elem? xs i ≡ some x → All P xs → P x
  All-get_elem? P i [] g a = absurd (ground arith)
  All-get_elem? P zero (y ∷ xs) {x} g a = let same : y ≡ x = cc in subst P same a.0
  All-get_elem? P (suc i) (y ∷ xs) g a = All-get_elem? P i xs g a.1

  pub All-map :
      (P Q : A → Type κ) (f : A → A) (xs : List A)
      → ((x : A) → P x → Q (f x))
      → All P xs
      → All Q (map f xs)
  All-map P Q f [] h a = tt
  All-map P Q f (x ∷ xs) h a = (h x a.0, All-map P Q f xs h a.1)

  pub All-weaken : (P Q : A → Type κ) (xs : List A) → ((x : A) → P x → Q x) → All P xs → All Q xs
  All-weaken P Q [] h a = tt
  All-weaken P Q (x ∷ xs) h a = (h x a.0, All-weaken P Q xs h a.1)
