-- ===== src/Preview/Capped.antt =====
-- What fetchCapped of web/src/preview/content.ts returns.
use omni_store.Common.{
  ℕ, zero, suc, ◌+◌, ◌-◌, ◌≤◌, min, List, [], ◌∷◌, ◌++◌, length, take, drop, leb, if_split, ◌==◌,
  length-take, ◌≡◌, refl, ap, sym, ◌∙◌, arith, length-append, append_assoc,
}
use omni_store.Preview.Content.{zeros, set_bytes, part, copy_chunks}

-- All the bytes of a list of chunks.
unfoldable pub bytes_of : List (List ℕ) → List ℕ
bytes_of [] = []
bytes_of (c ∷ cs) = c ++ bytes_of cs

length-zeros : (n : ℕ) → length (zeros n) ≡ n
unfolding zeros
length-zeros zero = refl
length-zeros (suc n) = ap suc (length-zeros n)

drop-zeros : (m n : ℕ) → drop m (zeros n) ≡ zeros (n - m)
unfolding zeros
drop-zeros zero n = ap zeros (omega arith)
drop-zeros (suc m) zero = (let e : 0 ≡ 0 - suc m = omega arith in ap zeros e)
drop-zeros (suc m) (suc n) = drop-zeros m n ∙ ap zeros (omega arith)

take-append_length : (xs ys : List ℕ) → take (length xs) (xs ++ ys) ≡ xs
take-append_length [] ys = refl
take-append_length (x ∷ xs) ys = ap (λ l. x ∷ l) (take-append_length xs ys)

drop-append_length : (xs ys : List ℕ) (n : ℕ) → drop (length xs + n) (xs ++ ys) ≡ drop n ys
drop-append_length [] ys n = ap (λ m. drop m ys) (omega arith)
drop-append_length (x ∷ xs) ys n =
    let e : suc (length xs) + n ≡ suc (length xs + n) = omega arith in
    ap (λ m. drop m (x ∷ (xs ++ ys))) e ∙ drop-append_length xs ys n

-- Bytes set behind the `written` ones take the place of zeros.
set_bytes-zeros :
    (written bytes : List ℕ) (k : ℕ)
    → set_bytes (written ++ zeros k) bytes (length written)
      ≡ (written ++ bytes) ++ zeros (k - length bytes)
set_bytes-zeros written bytes k =
    rw
      (
        take-append_length written (zeros k),
        drop-append_length written (zeros k) (length bytes),
        drop-zeros (length bytes) k,
      )
      (sym (append_assoc written bytes (zeros (k - length bytes))))

pub take-append :
    (n : ℕ) (xs ys : List ℕ) → take n (xs ++ ys) ≡ take n xs ++ take (n - length xs) ys
take-append zero xs ys = let e : 0 ≡ 0 - length xs = omega arith in ap (λ m. take m ys) e
take-append (suc n) [] ys = let e : suc n ≡ suc n - 0 = omega arith in ap (λ m. take m ys) e
take-append (suc n) (x ∷ xs) ys =
    ap (λ l. x ∷ l) (take-append n xs ys ∙ ap (λ m. take n xs ++ take m ys) (omega arith))

pub take_all : (n : ℕ) (xs : List ℕ) → length xs ≤ n → take n xs ≡ xs
take_all zero [] h = refl
take_all zero (x ∷ xs) h = absurd (omega (arith, h))
take_all (suc n) [] h = refl
take_all (suc n) (x ∷ xs) h = ap (λ l. x ∷ l) (take_all n xs (omega (arith, h)))

part-take : (c : List ℕ) (k size : ℕ) → size ≡ min (length c) k → part c size ≡ take k c
part-take c k size h =
    if_split (λ l. l ≡ take k c) (size == length c)
      (λ whole. sym (take_all k c (ground (arith, h, whole))))
      (λ cut. ap (λ m. take m c) (ground (arith, h, cut)))

next :
    (c written : List ℕ) (k size : ℕ)
    → size ≡ min (length c) k
    → set_bytes (written ++ zeros k) (part c size) (length written)
      ≡ (written ++ take k c) ++ zeros (k - length (take k c))
next c written k size h =
    ap (λ b. set_bytes (written ++ zeros k) b (length written)) (part-take c k size h)
    ∙ set_bytes-zeros written (take k c) k

no_room : (written xs : List ℕ) (k : ℕ) → k ≡ 0 → written ++ zeros k ≡ written ++ take k xs
unfolding zeros
no_room written xs zero h = refl
no_room written xs (suc k) h = absurd (omega (arith, h))

finish :
    (written c rest : List ℕ) (k : ℕ)
    → (written ++ take k c) ++ take (k - length (take k c)) rest ≡ written ++ take k (c ++ rest)
finish written c rest k =
    let t = length-take k c in
    let e : k - length (take k c) ≡ k - length c = omega (arith, t) in
    append_assoc written (take k c) (take (k - length (take k c)) rest)
    ∙ ap (λ m. written ++ (take k c ++ take m rest)) e
    ∙ ap (λ l. written ++ l) (sym (take-append k c rest))

-- The copying loop fills `k` zeros behind the bytes that it has written.
pub copy_chunks-fills :
    (cs : List (List ℕ)) (written : List ℕ) (k : ℕ)
    → k ≤ length (bytes_of cs)
    → copy_chunks cs (written ++ zeros k) (length written) ≡ written ++ take k (bytes_of cs)
unfolding copy_chunks bytes_of
copy_chunks-fills [] written k h = no_room written [] k (omega (arith, h))
copy_chunks-fills (c ∷ cs) written k h =
    let buffer = written ++ zeros k in
    let size = min (length c) (length buffer - length written) in
    let len = length-append written (zeros k) ∙ ap (λ m. length written + m) (length-zeros k) in
    let t = length-take k c in
    let all = length-append c (bytes_of cs) in
    let fits : size ≡ min (length c) k = omega (arith, len) in
    let offset : length written + size ≡ length (written ++ take k c) =
      omega (arith, length-append written (take k c), fits, t) in
    let ih =
      copy_chunks-fills cs (written ++ take k c) (k - length (take k c))
        (omega (arith, t, all, h)) in
    if_split (λ l. l ≡ written ++ take k (c ++ bytes_of cs)) (leb (length buffer) (length written))
      (λ full. no_room written (c ++ bytes_of cs) k (ground (arith, len, full)))
      (λ more.
        ap (λ b. copy_chunks cs b (length written + size)) (next c written k size fits)
        ∙ ap (copy_chunks cs ((written ++ take k c) ++ zeros (k - length (take k c)))) offset
        ∙ ih
        ∙ finish written c (bytes_of cs) k)
