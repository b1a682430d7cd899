-- ===== src/Preview/Reading.antt =====
-- What fetchCapped of web/src/preview/content.ts returns for a streamed body, against a description of
-- it that has no loop.
use omni_store.Common.{
  ℕ, ◌+◌, ◌-◌, ◌≤◌, ◌<◌, min, Bool, true, false, ◌&&◌, Option, none, some, List, [], ◌∷◌, ◌++◌,
  length, take, leb, ltb, if◌then◌else◌, if_split, ◌≡◌, refl, ap, sym, ◌∙◌, arith, length-append,
  append-nil, Bool-cases, inl, inr,
}
use omni_store.Preview.Content.{
  BodyEnd, Body, Response, Fetched, content, network_error, Reading, read_chunks, zeros,
  copy_chunks, merge_chunks, fetch_capped, after_chunk,
}
use omni_store.Preview.Capped.{bytes_of, take-append, take_all, copy_chunks-fills}

abbrev pub is_broken : BodyEnd → Bool
is_broken BodyEnd.breaks = true
is_broken BodyEnd.closes = false

-- The result of a streamed body: its first bytes, marked as cut off when it has at least as many as the
-- cap; the error of the reader when it comes before the cap.
unfoldable pub capped : ℕ → Body → Fetched
unfolding bytes_of
capped max_bytes b =
    if is_broken b.at_end && ltb (length (bytes_of b.chunks)) max_bytes
    then network_error
    else content (record {
      buffer = take max_bytes (bytes_of b.chunks);
      truncated = leb max_bytes (length (bytes_of b.chunks));
    })

-- What the reading loop has read, from `total` bytes on.
record ReadOk (max_bytes : ℕ) (cs : List (List ℕ)) (total : ℕ) (r : Reading) : Type 0 where
  counted : r.total ≡ total + length (bytes_of r.chunks)
  same : take (max_bytes - total) (bytes_of r.chunks) ≡ take (max_bytes - total) (bytes_of cs)
  truncated : r.truncated ≡ leb max_bytes (total + length (bytes_of cs))

abbrev ReadsAs : ℕ → BodyEnd → List (List ℕ) → ℕ → Option Reading → Type 0
ReadsAs max_bytes e cs total none =
    (is_broken e ≡ true) × (total + length (bytes_of cs) < max_bytes)
ReadsAs max_bytes e cs total (some r) =
    ReadOk max_bytes cs total r
    × ((is_broken e && ltb (total + length (bytes_of cs)) max_bytes) ≡ false)

take_within : (n : ℕ) (c xs : List ℕ) → n ≤ length c → take n (c ++ xs) ≡ take n c
take_within n c xs h =
    let e : n - length c ≡ 0 = omega (arith, h) in
    take-append n c xs ∙ ap (λ m. take n c ++ take m xs) e ∙ append-nil (take n c)

module _ (max_bytes : ℕ) (e : BodyEnd) where
  last_chunk :
      (c : List ℕ) (cs : List (List ℕ)) (total : ℕ)
      → leb max_bytes (total + length c) ≡ true
      → ReadsAs max_bytes e
          (c ∷ cs)
          total
          (some (record { chunks = c ∷ []; total = total + length c; truncated = true }))
  unfolding bytes_of
  last_chunk c cs total h =
      let one = length-append c [] in
      let all = length-append c (bytes_of cs) in
      let n : max_bytes - total ≤ length c = ground (arith, h) in
      (
        record {
          counted = omega (arith, one);
          same =
              take_within (max_bytes - total) c [] n
              ∙ sym (take_within (max_bytes - total) c (bytes_of cs) n);
          truncated = ground (arith, h, all);
        },
        ground (arith, h, all),
      )

  more_chunks :
      (c : List ℕ) (cs : List (List ℕ)) (total : ℕ) (o : Option Reading)
      → ReadsAs max_bytes e cs (total + length c) o
      → ReadsAs max_bytes e (c ∷ cs) total (after_chunk c o)
  unfolding bytes_of
  more_chunks c cs total none h =
      let all = length-append c (bytes_of cs) in (h.0, omega (arith, h.1, all))
  more_chunks c cs total (some r) h =
      let all = length-append c (bytes_of cs) in
      let read = length-append c (bytes_of r.chunks) in
      let n : max_bytes - total - length c ≡ max_bytes - (total + length c) = omega arith in
      let k : total + length c + length (bytes_of cs) ≡ total + length (c ++ bytes_of cs) =
        omega (arith, all) in
      (
        record {
          counted = omega (arith, h.0.counted, read);
          same =
              take-append (max_bytes - total) c (bytes_of r.chunks)
              ∙ ap (λ l. take (max_bytes - total) c ++ l)
                  (ap (λ m. take m (bytes_of r.chunks)) n
                    ∙ h.0.same
                    ∙ ap (λ m. take m (bytes_of cs)) (sym n))
              ∙ sym (take-append (max_bytes - total) c (bytes_of cs));
          truncated = h.0.truncated ∙ ap (leb max_bytes) k;
        },
        ap (λ m. is_broken e && ltb m max_bytes) (sym k) ∙ h.1,
      )

read_chunks-ReadsAs :
    (max_bytes : ℕ) (e : BodyEnd) (cs : List (List ℕ)) (total : ℕ)
    → total < max_bytes
    → ReadsAs max_bytes e cs total (read_chunks max_bytes e cs total)
unfolding read_chunks bytes_of
read_chunks-ReadsAs max_bytes BodyEnd.closes [] total h =
    (record { counted = omega arith; same = refl; truncated = ground (arith, h) }, refl)
read_chunks-ReadsAs max_bytes BodyEnd.breaks [] total h = (refl, omega (arith, h))
read_chunks-ReadsAs max_bytes BodyEnd.closes (c ∷ cs) total h =
    if_split (ReadsAs max_bytes BodyEnd.closes (c ∷ cs) total) (leb max_bytes (total + length c))
      (λ full. last_chunk max_bytes BodyEnd.closes c cs total full)
      (λ more.
        more_chunks max_bytes BodyEnd.closes c cs total _ (
          read_chunks-ReadsAs max_bytes BodyEnd.closes cs (total + length c)
            (ground (arith, more))))
read_chunks-ReadsAs max_bytes BodyEnd.breaks (c ∷ cs) total h =
    if_split (ReadsAs max_bytes BodyEnd.breaks (c ∷ cs) total) (leb max_bytes (total + length c))
      (λ full. last_chunk max_bytes BodyEnd.breaks c cs total full)
      (λ more.
        more_chunks max_bytes BodyEnd.breaks c cs total _ (
          read_chunks-ReadsAs max_bytes BodyEnd.breaks cs (total + length c)
            (ground (arith, more))))

take-min : (n m : ℕ) (xs : List ℕ) → n ≡ length xs → take (min n m) xs ≡ take m xs
take-min n m xs h = elim (Bool-cases (leb m n)) [
  | inl y ↦ let e : min n m ≡ m = ground (arith, y) in ap (λ k. take k xs) e
  | inr z ↦
      take_all (min n m) xs (ground (arith, h, z)) ∙ sym (take_all m xs (ground (arith, h, z)))
]

-- The copied bytes are the first ones of the body.
buffer_of :
    (max_bytes : ℕ) (cs : List (List ℕ)) (r : Reading)
    → ReadOk max_bytes cs 0 r
    → copy_chunks r.chunks (zeros (min r.total max_bytes)) 0 ≡ take max_bytes (bytes_of cs)
buffer_of max_bytes cs r h =
    let n : max_bytes - 0 ≡ max_bytes = omega arith in
    copy_chunks-fills r.chunks [] (min r.total max_bytes) (omega (arith, h.counted))
    ∙ take-min r.total max_bytes (bytes_of r.chunks) (omega (arith, h.counted))
    ∙ ap (λ m. take m (bytes_of r.chunks)) (sym n)
    ∙ h.same
    ∙ ap (λ m. take m (bytes_of cs)) n

merged :
    (max_bytes : ℕ) (b : Body) (o : Option Reading)
    → ReadsAs max_bytes b.at_end b.chunks 0 o
    → merge_chunks max_bytes o ≡ capped max_bytes b
unfolding capped
merged max_bytes b none h =
    let n : length (bytes_of b.chunks) < max_bytes = omega (arith, h.1) in ground (arith, h.0, n)
merged max_bytes b (some r) h =
    let n : 0 + length (bytes_of b.chunks) ≡ length (bytes_of b.chunks) = omega arith in
    let whole = ap (λ m. is_broken b.at_end && ltb m max_bytes) (sym n) ∙ h.1 in
    let flag = h.0.truncated ∙ ap (leb max_bytes) n in
    if_split (λ f. merge_chunks max_bytes (some r) ≡ f)
      (is_broken b.at_end && ltb (length (bytes_of b.chunks)) max_bytes)
      (λ no. absurd (ground (arith, whole, no)))
      (λ yes.
        ap (λ l. content (record { buffer = l; truncated = r.truncated }))
          (buffer_of max_bytes b.chunks r h.0)
        ∙ ap (λ t. content (record { buffer = take max_bytes (bytes_of b.chunks); truncated = t }))
            flag)

-- For a response that is ok and has a body, and a cap that is not zero, fetchCapped returns the first
-- bytes of the body, as many as the cap, and says `truncated` exactly when the body has at least that
-- many; it throws the reader's error only when that comes before the cap.
pub fetch_capped-capped :
    (max_bytes : ℕ) (response : Response) (b : Body)
    → 0 < max_bytes
    → response.ok ≡ true
    → response.body ≡ some b
    → fetch_capped max_bytes (some response) ≡ capped max_bytes b
unfolding fetch_capped
fetch_capped-capped max_bytes response b n ok body =
    rw (ok, body) (merged max_bytes b _ (read_chunks-ReadsAs max_bytes b.at_end b.chunks 0 n))
