-- ===== src/Preview/Content.antt =====
-- fetchCapped of web/src/preview/content.ts. What fetch and the reader of the body give is a parameter;
-- a byte is a number.
use omni_store.Common.{
  ℕ, zero, suc, ◌+◌, ◌-◌, min, Bool, true, false, Option, none, some, List, [], ◌∷◌, ◌++◌, length,
  take, drop, leb, if◌then◌else◌, ◌==◌,
}
use omni_store.Texts.{Text}

-- How the reads of a body end after its chunks: with `done`, or with an error.
pub data BodyEnd : Type 0 where
  closes breaks : BodyEnd

pub record Body : Type 0 where
  pub chunks : List (List ℕ)
  pub at_end : BodyEnd

-- `body` is `none` for a response without one; `array_buffer` is what arrayBuffer() then gives.
pub record Response : Type 0 where
  pub ok : Bool
  pub status : ℕ
  pub request_id : Option Text
  pub body : Option Body
  pub array_buffer : List ℕ

pub record CappedContent : Type 0 where
  pub buffer : List ℕ
  pub truncated : Bool

-- What fetchCapped comes to: its result, the ApiRequestError with its status and request id, or the
-- error of fetch or of the reader.
pub data Fetched : Type 0 where
  content : CappedContent → Fetched
  fetch_failed : ℕ → Text → Fetched
  network_error : Fetched

-- The variables of the reading loop when it is over; `truncated` is also whether the reader was cancelled.
pub record Reading : Type 0 where
  pub chunks : List (List ℕ)
  pub total : ℕ
  pub truncated : Bool

abbrev pub after_chunk : List ℕ → Option Reading → Option Reading
after_chunk c none = none
after_chunk c (some r) = some (record r { chunks = c ∷ r.chunks })

-- The reading loop from `total` on; `none` when the reader throws.
unfoldable pub read_chunks : ℕ → BodyEnd → List (List ℕ) → ℕ → Option Reading
read_chunks max_bytes BodyEnd.closes [] total =
    some (record { chunks = []; total = total; truncated = false })
read_chunks max_bytes BodyEnd.breaks [] total = none
read_chunks max_bytes e (c ∷ cs) total =
    let rest = read_chunks max_bytes e cs (total + length c) in
    if leb max_bytes (total + length c)
    then some (record { chunks = c ∷ []; total = total + length c; truncated = true })
    else after_chunk c rest

-- `new Uint8Array(n)`.
unfoldable pub zeros : ℕ → List ℕ
zeros zero = []
zeros (suc n) = 0 ∷ zeros n

-- `buffer.set(bytes, offset)`.
abbrev pub set_bytes : List ℕ → List ℕ → ℕ → List ℕ
set_bytes buffer bytes offset = take offset buffer ++ (bytes ++ drop (offset + length bytes) buffer)

abbrev pub part : List ℕ → ℕ → List ℕ
part chunk size = if size == length chunk then chunk else take size chunk

-- The copying loop.
unfoldable pub copy_chunks : List (List ℕ) → List ℕ → ℕ → List ℕ
copy_chunks [] merged offset = merged
copy_chunks (c ∷ cs) merged offset =
    let size = min (length c) (length merged - offset) in
    let rest = copy_chunks cs (set_bytes merged (part c size) offset) (offset + size) in
    if leb (length merged) offset then merged else rest

abbrev pub merge_chunks : ℕ → Option Reading → Fetched
merge_chunks max_bytes none = network_error
merge_chunks max_bytes (some r) = content (record {
  buffer = copy_chunks r.chunks (zeros (min r.total max_bytes)) 0;
  truncated = r.truncated;
})

abbrev pub or_empty : Option Text → Text
or_empty none = []
or_empty (some t) = t

abbrev pub read_body : ℕ → Option Body → List ℕ → Fetched
read_body max_bytes none array_buffer =
    content (record { buffer = array_buffer; truncated = false })
read_body max_bytes (some b) array_buffer =
    merge_chunks max_bytes (read_chunks max_bytes b.at_end b.chunks 0)

-- `none` is a fetch that throws.
unfoldable pub fetch_capped : ℕ → Option Response → Fetched
unfolding read_chunks copy_chunks zeros
fetch_capped max_bytes none = network_error
fetch_capped max_bytes (some response) =
    if response.ok
    then read_body max_bytes response.body response.array_buffer
    else fetch_failed response.status (or_empty response.request_id)
