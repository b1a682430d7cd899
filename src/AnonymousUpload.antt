-- ===== src/AnonymousUpload.antt =====
-- web/src/pages/AnonymousUpload.tsx: the page that uploads images without an account. The queue of
-- uploads is in Queue; this file has the data, and the links of an uploaded image.
mod Queue
mod Pool
mod Order
mod Shown
mod Links
mod LinkReaders
mod LinkReading
mod Examples
use Prim.Native.String.{String}
use omni_store.Common.{
  ℕ, ◌*◌, Bool, true, false, Option, none, some, List, [], ◌∷◌, any, ltb, if◌then◌else◌,
}
use text.Mathlib.Text.{◌==◌ as ◌=ₛ◌}
use omni_store.Texts.{Text}
use omni_store.Files.{File}

pub data UploadState : Type 0 where
  queued uploading success error : UploadState

-- A `File` with its `type`.
pub record ImageFile : Type 0 where
  pub file : File
  pub type : String

-- What keeps a file from being uploaded: its type, its size, or the answer to the upload, with the
-- message of an ApiRequestError.
pub data ItemError : Type 0 where
  not_accepted too_large : ItemError
  refused : Option String → ItemError

-- The preview, a URL that the browser makes, is left out. The identifiers are random; here they are
-- numbers in the order of their making.
pub record UploadItem : Type 0 where
  pub id : ℕ
  pub file : ImageFile
  pub state : UploadState
  pub url : Option Text
  pub error : Option ItemError

-- What the server says of the service: `status.data`, while there is one.
pub record AnonymousStatus : Type 0 where
  pub enabled : Bool
  pub max_file_size_mb : ℕ

abbrev pub max_concurrent_uploads : ℕ
max_concurrent_uploads = 3

unfoldable pub is_accepted_type : String → Bool
is_accepted_type t =
    any (λ a. a =ₛ t) ("image/jpeg" ∷ "image/png" ∷ "image/webp" ∷ "image/gif" ∷ [])

-- `maxBytes`.
abbrev pub max_bytes : AnonymousStatus → ℕ
max_bytes s = s.max_file_size_mb * 1024 * 1024

-- The `error` that addFiles finds in a file.
unfoldable pub file_error : AnonymousStatus → ImageFile → Option ItemError
unfolding is_accepted_type
file_error status f =
    if is_accepted_type f.type
    then if ltb (max_bytes status) f.file.size then some too_large else none
    else some not_accepted

abbrev pub state_of : Option ItemError → UploadState
state_of none = UploadState.queued
state_of (some e) = UploadState.error

abbrev pub state_queued : UploadState → Bool
state_queued UploadState.queued = true
state_queued _ = false

abbrev pub state_uploading : UploadState → Bool
state_uploading UploadState.uploading = true
state_uploading _ = false
