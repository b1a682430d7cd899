-- ===== src/Preview/Resolver.antt =====
-- web/src/preview/resolver.ts: how a file is previewed, by the extension of its name and by its size.
-- String.prototype.toLowerCase is the parameter `lower`.
use omni_store.Common.{
  ℕ, zero, suc, ◌*◌, Bool, true, false, Option, none, some, List, [], ◌∷◌, any, length, drop, ltb,
  ◌==◌, if◌then◌else◌,
}
use omni_store.Texts.{Text, text_eq, last_index_of}
use omni_store.Uri.Bytes.{codes}

pub data PreviewKind : Type 0 where
  image text markdown json yaml code pdf audio video unsupported : PreviewKind

-- `size` is `none` when it is null or missing.
pub record PreviewDescriptor : Type 0 where
  pub name : Text
  pub size : Option ℕ

abbrev pub text_bytes : ℕ
text_bytes = 512 * 1024

abbrev pub markdown_bytes : ℕ
markdown_bytes = 1024 * 1024

abbrev pub json_bytes : ℕ
json_bytes = 1024 * 1024

abbrev pub svg_blob_bytes : ℕ
svg_blob_bytes = 32 * 1024 * 1024

abbrev pub pdf_blob_bytes : ℕ
pdf_blob_bytes = 64 * 1024 * 1024

abbrev pub image_exts : List Text
image_exts =
    codes "png"
    ∷ codes "jpg"
    ∷ codes "jpeg"
    ∷ codes "gif"
    ∷ codes "webp"
    ∷ codes "bmp"
    ∷ codes "avif"
    ∷ codes "ico"
    ∷ []

abbrev pub svg_exts : List Text
svg_exts = codes "svg" ∷ []

abbrev pub text_exts : List Text
text_exts =
    codes "txt"
    ∷ codes "log"
    ∷ codes "csv"
    ∷ codes "tsv"
    ∷ codes "ini"
    ∷ codes "conf"
    ∷ codes "cfg"
    ∷ codes "env"
    ∷ codes "toml"
    ∷ []

abbrev pub markdown_exts : List Text
markdown_exts = codes "md" ∷ codes "markdown" ∷ codes "mdx" ∷ []

abbrev pub json_exts : List Text
json_exts = codes "json" ∷ codes "jsonc" ∷ codes "map" ∷ []

abbrev pub yaml_exts : List Text
yaml_exts = codes "yml" ∷ codes "yaml" ∷ []

abbrev pub code_exts : List Text
code_exts =
    codes "py"
    ∷ codes "go"
    ∷ codes "rs"
    ∷ codes "java"
    ∷ codes "kt"
    ∷ codes "swift"
    ∷ codes "c"
    ∷ codes "h"
    ∷ codes "cpp"
    ∷ codes "hpp"
    ∷ codes "cc"
    ∷ codes "cs"
    ∷ codes "rb"
    ∷ codes "php"
    ∷ codes "sh"
    ∷ codes "bash"
    ∷ codes "zsh"
    ∷ codes "sql"
    ∷ codes "ts"
    ∷ codes "tsx"
    ∷ codes "jsx"
    ∷ codes "lua"
    ∷ codes "r"
    ∷ []

abbrev pub pdf_exts : List Text
pdf_exts = codes "pdf" ∷ []

abbrev pub audio_exts : List Text
audio_exts =
    codes "mp3"
    ∷ codes "wav"
    ∷ codes "ogg"
    ∷ codes "oga"
    ∷ codes "m4a"
    ∷ codes "aac"
    ∷ codes "flac"
    ∷ codes "opus"
    ∷ codes "weba"
    ∷ []

abbrev pub video_exts : List Text
video_exts = codes "mp4" ∷ codes "webm" ∷ codes "mkv" ∷ codes "mov" ∷ codes "m4v" ∷ codes "ogv" ∷ []

abbrev pub has : List Text → Text → Bool
has exts ext = any (λ e. text_eq e ext) exts

-- `dot <= 0 || dot === name.length - 1 ? '' : name.slice(dot + 1).toLowerCase()`.
abbrev pub ext_at : (Text → Text) → Option ℕ → Text → Text
ext_at lower none name = []
ext_at lower (some zero) name = []
ext_at lower (some (suc i)) name =
    if suc (suc i) == length name then [] else lower (drop (suc (suc i)) name)

unfoldable pub ext_of : (Text → Text) → Text → Text
unfolding last_index_of
ext_of lower name = ext_at lower (last_index_of b'.' name) name

abbrev pub is_over : Option ℕ → ℕ → Bool
is_over none cap = false
is_over (some size) cap = ltb cap size

abbrev pub limited : Option ℕ → ℕ → PreviewKind → PreviewKind
limited size cap kind = if is_over size cap then PreviewKind.unsupported else kind

-- The choice, given the extension.
abbrev pub kind_of : Text → Option ℕ → PreviewKind
kind_of ext size =
    if has svg_exts ext
    then limited size svg_blob_bytes PreviewKind.image
    else if has image_exts ext
    then PreviewKind.image
    else if has pdf_exts ext
    then limited size pdf_blob_bytes PreviewKind.pdf
    else if has markdown_exts ext
    then limited size markdown_bytes PreviewKind.markdown
    else if has json_exts ext
    then limited size json_bytes PreviewKind.json
    else if has yaml_exts ext
    then limited size text_bytes PreviewKind.yaml
    else if has code_exts ext
    then limited size text_bytes PreviewKind.code
    else if has text_exts ext
    then limited size text_bytes PreviewKind.text
    else if has audio_exts ext
    then PreviewKind.audio
    else if has video_exts ext
    then PreviewKind.video
    else PreviewKind.unsupported

unfoldable pub resolve_preview : (Text → Text) → PreviewDescriptor → PreviewKind
unfolding ext_of
resolve_preview lower desc = kind_of (ext_of lower desc.name) desc.size

unfoldable pub is_streamed_kind : PreviewKind → Bool
is_streamed_kind PreviewKind.audio = true
is_streamed_kind PreviewKind.video = true
is_streamed_kind PreviewKind.image = true
is_streamed_kind _ = false
