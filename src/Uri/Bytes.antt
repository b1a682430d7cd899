-- ===== src/Uri/Bytes.antt =====
-- The UTF-8 bytes of a JavaScript string. Text literals are ASCII, where a code unit is a byte.
use Prim.Native.Char.{code}
use Prim.Native.String.{String}
use omni_store.Common.{
  ℕ, ◌+◌, ◌-◌, ◌*◌, ◌/◌, ◌%◌, ◌<◌, Bool, true, false, ◌&&◌, Option, none, some, List, [], ◌∷◌, ◌++◌,
  leb, ltb, if◌then◌else◌, if_split, if_ind, ◌≡◌, refl, arith, All, Option-cases, inl, inr,
}
use omni_store.Texts.{Text}

abbrev pub codes : String → Text
codes String.[] = []
codes (String.◌∷◌ c s) = code c ∷ codes s

abbrev pub is_high : ℕ → Bool
is_high c = leb 0xd800 c && ltb c 0xdc00

abbrev pub is_low : ℕ → Bool
is_low c = leb 0xdc00 c && ltb c 0xe000

-- The code points of a string, `none` for a surrogate that stands alone; the first argument is a high
-- surrogate that waits for a low one.
unfoldable pub code_points : Option ℕ → Text → List (Option ℕ)
code_points none [] = []
code_points (some h) [] = none ∷ []
code_points none (c ∷ s) =
    let waiting = code_points (some c) s in
    let rest = code_points none s in
    if is_high c then waiting else if is_low c then none ∷ rest else some c ∷ rest
code_points (some h) (c ∷ s) =
    let waiting = code_points (some c) s in
    let rest = code_points none s in
    if is_low c
    then some (0x10000 + (h - 0xd800) * 0x400 + (c - 0xdc00)) ∷ rest
    else if is_high c
    then none ∷ waiting
    else none ∷ some c ∷ rest

-- UTF-8 of a code point.
unfoldable pub utf8_point : ℕ → List ℕ
utf8_point c =
    if ltb c 0x80
    then c ∷ []
    else if ltb c 0x800
    then (0xc0 + c / 0x40 % 0x20) ∷ (0x80 + c % 0x40) ∷ []
    else if ltb c 0x10000
    then (0xe0 + c / 0x1000 % 0x10) ∷ (0x80 + c / 0x40 % 0x40) ∷ (0x80 + c % 0x40) ∷ []
    else (0xf0 + c / 0x40000 % 8)
      ∷ (0x80 + c / 0x1000 % 0x40)
      ∷ (0x80 + c / 0x40 % 0x40)
      ∷ (0x80 + c % 0x40)
      ∷ []

-- All code points, or `none` when a surrogate stands alone.
unfoldable pub strict : List (Option ℕ) → Option (List ℕ)
unfolding utf8_point
strict [] = some []
strict (none ∷ ps) = none
strict (some p ∷ ps) = elim (strict ps) [ none ↦ none | some bs ↦ some (utf8_point p ++ bs) ]

-- A surrogate that stands alone becomes U+FFFD.
unfoldable pub lossy : List (Option ℕ) → List ℕ
unfolding utf8_point
lossy [] = []
lossy (none ∷ ps) = utf8_point 0xfffd ++ lossy ps
lossy (some p ∷ ps) = utf8_point p ++ lossy ps

unfoldable pub utf8 : Text → Option (List ℕ)
unfolding strict code_points
utf8 s = strict (code_points none s)

-- The bytes of a USVString.
unfoldable pub usv : Text → List ℕ
unfolding lossy code_points
usv s = lossy (code_points none s)

abbrev pub IsByte : ℕ → Type 0
IsByte b = b < 256

pub All-append {κ} : (P : ℕ → Type κ) (xs ys : List ℕ) → All P xs → All P ys → All P (xs ++ ys)
All-append P [] ys a b = b
All-append P (x ∷ xs) ys a b = (a.0, All-append P xs ys a.1 b)

utf8_point-IsByte : (c : ℕ) → All IsByte (utf8_point c)
unfolding utf8_point
utf8_point-IsByte c =
    if_split (All IsByte) (ltb c 0x80) (λ h. ground (arith, h))
      (λ h.
        if_split (All IsByte) (ltb c 0x800) (λ _. omega arith)
          (λ _. if_split (All IsByte) (ltb c 0x10000) (λ _. omega arith) (λ _. omega arith)))

lossy-IsByte : (ps : List (Option ℕ)) → All IsByte (lossy ps)
unfolding lossy
lossy-IsByte [] = tt
lossy-IsByte (none ∷ ps) =
    All-append IsByte (utf8_point 0xfffd) (lossy ps) (utf8_point-IsByte 0xfffd) (lossy-IsByte ps)
lossy-IsByte (some p ∷ ps) =
    All-append IsByte (utf8_point p) (lossy ps) (utf8_point-IsByte p) (lossy-IsByte ps)

pub usv-IsByte : (s : Text) → All IsByte (usv s)
unfolding usv
usv-IsByte s = lossy-IsByte (code_points none s)

-- The two readings of a string agree where no surrogate stands alone.
strict-lossy : (ps : List (Option ℕ)) (bs : List ℕ) → strict ps ≡ some bs → lossy ps ≡ bs
unfolding strict lossy
strict-lossy [] bs h = cc h
strict-lossy (none ∷ ps) bs h = cc h
strict-lossy (some p ∷ ps) bs h = elim (Option-cases (strict ps)) [
  | inl e ↦ ground (arith, h, e)
  | inr (rest, e) ↦ ground (arith, h, e, strict-lossy ps rest e)
]

pub utf8-usv : (s : Text) (bs : List ℕ) → utf8 s ≡ some bs → usv s ≡ bs
unfolding utf8 usv
utf8-usv s = strict-lossy (code_points none s)

-- A string that is not empty has bytes.
abbrev pub is_nil {ℓ} : {A : Type ℓ} → List A → Bool
is_nil [] = true
is_nil (x ∷ xs) = false

points_waiting : (h : ℕ) (s : Text) → is_nil (code_points (some h) s) ≡ false
unfolding code_points
points_waiting h [] = refl
points_waiting h (c ∷ s) =
    if_ind (λ (l : List (Option ℕ)). is_nil l ≡ false) (is_low c) refl
      (if_ind (λ (l : List (Option ℕ)). is_nil l ≡ false) (is_high c) refl refl)

points_filled : (c : ℕ) (s : Text) → is_nil (code_points none (c ∷ s)) ≡ false
unfolding code_points
points_filled c s =
    if_ind (λ (l : List (Option ℕ)). is_nil l ≡ false) (is_high c) (points_waiting c s)
      (if_ind (λ (l : List (Option ℕ)). is_nil l ≡ false) (is_low c) refl refl)

point_filled : (p : ℕ) (r : List ℕ) → is_nil (utf8_point p ++ r) ≡ false
unfolding utf8_point
point_filled p r =
    if_ind (λ (l : List ℕ). is_nil (l ++ r) ≡ false) (ltb p 0x80) refl
      (if_ind (λ (l : List ℕ). is_nil (l ++ r) ≡ false) (ltb p 0x800) refl
        (if_ind (λ (l : List ℕ). is_nil (l ++ r) ≡ false) (ltb p 0x10000) refl refl))

strict_filled :
    (ps : List (Option ℕ)) (bs : List ℕ)
    → is_nil ps ≡ false
    → strict ps ≡ some bs
    → is_nil bs ≡ false
unfolding strict
strict_filled [] bs n h = cc n
strict_filled (none ∷ ps) bs n h = cc h
strict_filled (some p ∷ ps) bs n h = elim (Option-cases (strict ps)) [
  | inl e ↦ ground (arith, h, e)
  | inr (rest, e) ↦ ground (arith, h, e, point_filled p rest)
]

pub utf8_filled : (c : ℕ) (s : Text) (bs : List ℕ) → utf8 (c ∷ s) ≡ some bs → is_nil bs ≡ false
unfolding utf8
utf8_filled c s bs = strict_filled (code_points none (c ∷ s)) bs (points_filled c s)
