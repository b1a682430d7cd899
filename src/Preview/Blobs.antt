-- ===== src/Preview/Blobs.antt =====
-- The previews of SVG images and PDF files of web/src/preview/PreviewContent.tsx: their content becomes an object
-- URL of the browser, in an effect that runs again for another file and after a retry. fetchBlob of
-- web/src/preview/content.ts. A switch from an SVG file to another image, which keeps the component, is left out.
use omni_store.Common.{
  ℕ, suc, Bool, true, false, not, ◌||◌, Option, none, some, List, [], ◌∷◌, keep, get_elem?,
  modify_at, ◌==◌, if◌then◌else◌,
}
use omni_store.Texts.{Text, text_eq}
use omni_store.Uri.Bytes.{codes}
use omni_store.Preview.Resolver.{svg_blob_bytes, pdf_blob_bytes}
use omni_store.Preview.Content.{
  Response, Fetched, content, fetch_failed, network_error, fetch_capped,
}

pub record Blob : Type 0 where
  pub bytes : List ℕ
  pub mime : Text

pub data LoadFailure : Type 0 where
  refused : ℕ → Text → LoadFailure
  unreachable : LoadFailure

pub data BlobResult : Type 0 where
  loaded : Blob → BlobResult
  failed : LoadFailure → BlobResult

-- `fetchBlob`, without `truncated`, which its callers do not read.
abbrev pub blob_of : Fetched → BlobResult
blob_of (content c) = loaded (record { bytes = c.buffer; mime = codes "application/octet-stream" })
blob_of (fetch_failed status id) = failed (refused status id)
blob_of network_error = failed unreachable

unfoldable pub fetch_blob : ℕ → Option Response → BlobResult
unfolding fetch_capped
fetch_blob max_bytes r = blob_of (fetch_capped max_bytes r)

-- ImagePreview, of an SVG file, and PdfPreview.
pub data BlobView : Type 0 where
  svg pdf : BlobView

-- A PDF gets its type, and an SVG file keeps that of fetchBlob.
abbrev pub typed : BlobView → BlobResult → BlobResult
typed svg r = r
typed pdf (loaded b) = loaded (record { bytes = b.bytes; mime = codes "application/pdf" })
typed pdf (failed f) = failed f

abbrev pub cap_of : BlobView → ℕ
cap_of svg = svg_blob_bytes
cap_of pdf = pdf_blob_bytes

-- A run of the effect: its variables `revoked` and `ctrl`, and whether its promise has settled. `response` is
-- what fetch gives for its URL.
pub record Run : Type 0 where
  pub url : Text
  pub response : Option Response
  pub revoked : Option ℕ
  pub aborted : Bool
  pub settled : Bool

-- The component, its runs with the newest first, and the object URLs of the browser that it made and that are
-- not revoked.
pub record BlobPreview : Type 0 where
  pub url : Text
  pub mounted : Bool
  pub blob_url : Option ℕ
  pub error : Option LoadFailure
  pub runs : List Run
  pub object_urls : List (ℕ × Blob)
  pub next_url : ℕ

-- `URL.revokeObjectURL(revoked)`.
abbrev pub revoke : Option ℕ → List (ℕ × Blob) → List (ℕ × Blob)
revoke none urls = urls
revoke (some k) urls = keep (λ u. not (u.0 == k)) urls

abbrev pub abort : Run → Run
abort run = record run { aborted = true }

-- What the newest run of the effect returned: its cleanup.
unfoldable pub cleanup : List Run → BlobPreview → BlobPreview
cleanup [] s = s
cleanup (run ∷ rest) s = record s {
  runs = abort run ∷ rest;
  object_urls = revoke run.revoked s.object_urls;
}

-- A run of the effect, for the URL of the component.
unfoldable pub run_effect : Option Response → BlobPreview → BlobPreview
run_effect r s = record s {
  blob_url = none;
  error = none;
  runs =
      (record { url = s.url; response = r; revoked = none; aborted = false; settled = false })
      ∷ s.runs;
}

-- An aborted fetch, or an aborted read of its body, is rejected.
unfoldable pub outcome : BlobView → Run → BlobResult
unfolding fetch_blob
outcome v run =
    if run.aborted then failed unreachable else typed v (fetch_blob (cap_of v) run.response)

abbrev pub settle_run : Run → Run
settle_run run = record run { settled = true }

abbrev pub hold : ℕ → Run → Run
hold url run = record run { settled = true; revoked = some url }

-- The handlers of the k-th run.
unfoldable pub show_outcome : ℕ → Run → BlobResult → BlobPreview → BlobPreview
show_outcome k run (loaded b) s = record s {
  runs = modify_at (hold s.next_url) k s.runs;
  object_urls = (s.next_url, b) ∷ s.object_urls;
  next_url = suc s.next_url;
  blob_url = some s.next_url;
}
show_outcome k run (failed f) s =
    let t = record s { runs = modify_at settle_run k s.runs } in
    if run.aborted then t else record t { error = some f }

-- The promise of the k-th newest run settles, if it has not.
unfoldable pub settle_effect : BlobView → ℕ → Option Run → BlobPreview → BlobPreview
unfolding show_outcome outcome
settle_effect v k none s = s
settle_effect v k (some run) s = if run.settled then s else show_outcome k run (outcome v run) s

pub data PreviewEvent : Type 0 where
  show : Text → Option Response → PreviewEvent
  retry : Option Response → PreviewEvent
  close : PreviewEvent
  settles : ℕ → PreviewEvent

abbrev pub with_url : Text → BlobPreview → BlobPreview
with_url url s = record s { url = url }

abbrev pub unmounted : BlobPreview → BlobPreview
unmounted s = record s { mounted = false }

-- A render and its effects are one step; the effect runs again only for another URL. `retry` is the button of the error, which is shown while there is one.
unfoldable pub preview_step : BlobView → PreviewEvent → BlobPreview → BlobPreview
unfolding cleanup run_effect settle_effect text_eq
preview_step v (show url r) s =
    if text_eq url s.url || not s.mounted then s else run_effect r (with_url url (cleanup s.runs s))
preview_step v (retry r) s =
    if s.mounted then elim s.error [ none ↦ s | some f ↦ run_effect r (cleanup s.runs s) ] else s
preview_step v close s = if s.mounted then unmounted (cleanup s.runs s) else s
preview_step v (settles k) s = settle_effect v k (get_elem? s.runs k) s

abbrev pub blank_preview : Text → BlobPreview
blank_preview url = record {
  url = url;
  mounted = true;
  blob_url = none;
  error = none;
  runs = [];
  object_urls = [];
  next_url = 0;
}

unfoldable pub mount_preview : Text → Option Response → BlobPreview
unfolding run_effect
mount_preview url r = run_effect r (blank_preview url)

abbrev pub preview_steps : BlobView → List PreviewEvent → BlobPreview → BlobPreview
preview_steps v [] s = s
preview_steps v (e ∷ es) s = preview_steps v es (preview_step v e s)
