-- ===== src/Preview/Examples.antt =====
-- A body of three chunks read with a cap of four bytes, and the preview of "a.md".
use omni_store.Common.{true, none, some, [], ◌∷◌, ◌≡◌, refl, arith}
use omni_store.Texts.{text_eq}
use omni_store.Preview.Resolver.{PreviewKind, PreviewDescriptor, ext_of, resolve_preview}
use omni_store.Preview.Caps.{WithinCap, resolve_preview-WithinCap}
use omni_store.Preview.Content.{BodyEnd, Body, Response, fetch_capped}
use omni_store.Preview.Reading.{capped, fetch_capped-capped}

abbrev body : Body
body = record { chunks = (1 ∷ 2 ∷ []) ∷ (3 ∷ 4 ∷ 5 ∷ []) ∷ (6 ∷ []) ∷ []; at_end = BodyEnd.breaks }

abbrev response : Response
response = record {
  ok = true;
  status = 200;
  request_id = none;
  body = some body;
  array_buffer = [];
}

fetch_capped-capped_example : fetch_capped 4 (some response) ≡ capped 4 body
fetch_capped-capped_example = fetch_capped-capped 4 response body (omega arith) refl refl

abbrev note : PreviewDescriptor
note = record { name = b'a' ∷ b'.' ∷ b'm' ∷ b'd' ∷ []; size = some 100 }

note_kind : resolve_preview (λ t. t) note ≡ PreviewKind.markdown
unfolding resolve_preview text_eq
note_kind = refl

resolve_preview-WithinCap_example :
    WithinCap (ext_of (λ t. t) note.name) note.size (resolve_preview (λ t. t) note)
resolve_preview-WithinCap_example = resolve_preview-WithinCap (λ t. t) note
