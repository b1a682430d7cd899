-- ===== src/Preview/Caps.antt =====
-- The sizes of what web/src/preview/resolver.ts lets be previewed.
use omni_store.Common.{ℕ, ◌≤◌, false, Option, none, some, if_split, ◌≡◌, ◌⊎◌, inl, inr, arith}
use omni_store.Texts.{Text}
use omni_store.Preview.Resolver.{
  PreviewKind, PreviewDescriptor, text_bytes, markdown_bytes, json_bytes, svg_blob_bytes,
  pdf_blob_bytes, image_exts, svg_exts, text_exts, markdown_exts, json_exts, yaml_exts, code_exts,
  pdf_exts, audio_exts, video_exts, has, ext_of, is_over, limited, resolve_preview,
}

-- The size, when it is known, is at most the cap.
abbrev pub AtMost : ℕ → Option ℕ → Type 0
AtMost cap none = Unit
AtMost cap (some size) = size ≤ cap

-- What the size of a file with this extension is held to by the kind of its preview. What is streamed,
-- but for an SVG image, has no cap.
abbrev pub WithinCap : Text → Option ℕ → PreviewKind → Type 0
WithinCap ext size PreviewKind.image = (has svg_exts ext ≡ false) ⊎ AtMost svg_blob_bytes size
WithinCap ext size PreviewKind.text = AtMost text_bytes size
WithinCap ext size PreviewKind.markdown = AtMost markdown_bytes size
WithinCap ext size PreviewKind.json = AtMost json_bytes size
WithinCap ext size PreviewKind.yaml = AtMost text_bytes size
WithinCap ext size PreviewKind.code = AtMost text_bytes size
WithinCap ext size PreviewKind.pdf = AtMost pdf_blob_bytes size
WithinCap ext size _ = Unit

within : (size : Option ℕ) (cap : ℕ) → is_over size cap ≡ false → AtMost cap size
within none cap h = tt
within (some size) cap h = ground (arith, h)

capped_at :
    (ext : Text) (size : Option ℕ) (cap : ℕ) (kind : PreviewKind)
    → (AtMost cap size → WithinCap ext size kind)
    → WithinCap ext size (limited size cap kind)
capped_at ext size cap kind f =
    if_split (WithinCap ext size) (is_over size cap) (λ over. tt) (λ fits. f (within size cap fits))

-- Whatever is previewed has a size, when it is known, of at most the cap of its kind; audio, video and
-- the images that are not SVG have none.
pub resolve_preview-WithinCap :
    (lower : Text → Text) (desc : PreviewDescriptor)
    → WithinCap (ext_of lower desc.name) desc.size (resolve_preview lower desc)
unfolding resolve_preview
resolve_preview-WithinCap lower desc =
    let ext = ext_of lower desc.name in
    let size = desc.size in
    let P = WithinCap ext size in
    if_split P (has svg_exts ext) (λ h. capped_at ext size svg_blob_bytes PreviewKind.image inr)
      (λ svg.
        if_split P (has image_exts ext) (λ h. inl svg)
          (λ h.
            if_split P (has pdf_exts ext)
              (λ h. capped_at ext size pdf_blob_bytes PreviewKind.pdf (λ a. a))
              (λ h.
                if_split P (has markdown_exts ext)
                  (λ h. capped_at ext size markdown_bytes PreviewKind.markdown (λ a. a))
                  (λ h.
                    if_split P (has json_exts ext)
                      (λ h. capped_at ext size json_bytes PreviewKind.json (λ a. a))
                      (λ h.
                        if_split P (has yaml_exts ext)
                          (λ h. capped_at ext size text_bytes PreviewKind.yaml (λ a. a))
                          (λ h.
                            if_split P (has code_exts ext)
                              (λ h. capped_at ext size text_bytes PreviewKind.code (λ a. a))
                              (λ h.
                                if_split P (has text_exts ext)
                                  (λ h. capped_at ext size text_bytes PreviewKind.text (λ a. a))
                                  (λ h.
                                    if_split P (has audio_exts ext) (λ h. tt)
                                      (λ h.
                                        if_split P (has video_exts ext) (λ h. tt) (λ h. tt))))))))))
