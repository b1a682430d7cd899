-- ===== src/Preview/BlobExamples.antt =====
-- A PDF is opened, another one before it has arrived; then both answers come.
use omni_store.Common.{ℕ, List, ◌++◌, true, none, some, [], ◌∷◌, ◌≡◌, refl}
use omni_store.Texts.{text_eq}
use omni_store.Uri.Bytes.{codes}
use omni_store.Preview.Content.{Response}
use omni_store.Preview.Blobs.{
  Blob, BlobView, show, close, settles, PreviewEvent, mount_preview, preview_steps, preview_step,
}
use omni_store.Preview.Screens.{PreviewOk, mounted-PreviewOk}

abbrev answer : ℕ → Response
answer byte = record {
  ok = true;
  status = 200;
  request_id = none;
  body = none;
  array_buffer = byte ∷ [];
}

abbrev second_blob : Blob
second_blob = record { bytes = 2 ∷ []; mime = codes "application/pdf" }

abbrev switched : List PreviewEvent
switched = show (b'b' ∷ []) (some (answer 2)) ∷ settles 1 ∷ settles 0 ∷ []

-- Only the second is shown, and nothing is left when the preview is closed.
second_shown :
    ((preview_steps BlobView.pdf switched (mount_preview (b'a' ∷ []) (some (answer 1)))).object_urls
      ≡ (0, second_blob) ∷ [])
    × ((preview_steps BlobView.pdf
          (switched ++ (close ∷ []))
          (mount_preview (b'a' ∷ []) (some (answer 1)))).object_urls
        ≡ [])
unfolding preview_step mount_preview text_eq
second_shown = (refl, refl)

mounted-PreviewOk_example :
    PreviewOk BlobView.pdf
      (preview_steps BlobView.pdf switched (mount_preview (b'a' ∷ []) (some (answer 1))))
mounted-PreviewOk_example = mounted-PreviewOk BlobView.pdf (b'a' ∷ []) (some (answer 1)) switched
