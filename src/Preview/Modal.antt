-- ===== src/Preview/Modal.antt =====
-- The layer of web/src/preview/PreviewModal.tsx: which of the files it shows, its keys and buttons, and the
-- addresses of a file.
use omni_store.Common.{
  ℕ, suc, ◌-◌, Option, none, some, List, [], ◌∷◌, ◌++◌, any, length, ltb, ◌==◌, if◌then◌else◌,
}
use omni_store.Texts.{Text}
use omni_store.Uri.Bytes.{codes}

pub record PreviewItem : Type 0 where
  pub name : Text
  pub size : Option ℕ
  pub url : Text
  pub download_url : Option Text

pub record PreviewState : Type 0 where
  pub items : List PreviewItem
  pub index : ℕ

abbrev pub with_download : Text → Text
with_download url =
    if any (λ c. c == b'?') url then url ++ codes "&download=1" else url ++ codes "?download=1"

abbrev pub or_url : Option Text → Text → Text
or_url none url = with_download url
or_url (some d) url = d

-- `downloadUrl` of the layer.
unfoldable pub modal_download_url : PreviewItem → Text
modal_download_url item = or_url item.download_url item.url

abbrev pub or_url_if_empty : Option Text → Text → Text
or_url_if_empty none url = with_download url
or_url_if_empty (some []) url = with_download url
or_url_if_empty (some (c ∷ d)) url = c ∷ d

-- That of the content of the layer, for which an empty address is none.
unfoldable pub download_url_of : PreviewItem → Text
download_url_of item = or_url_if_empty item.download_url item.url

-- The keys that the layer listens to. The buttons of the arrows do the same, and the one to close does what
-- Escape does.
pub data PreviewInput : Type 0 where
  escape arrow_left arrow_right : PreviewInput

-- `none` when the layer is closed.
unfoldable pub press : PreviewInput → PreviewState → Option PreviewState
press escape s = none
press arrow_left s = if ltb 0 s.index then some (record s { index = s.index - 1 }) else some s
press arrow_right s =
    if ltb s.index (length s.items - 1) then some (record s { index = suc s.index }) else some s

abbrev pub if_open :
    (PreviewState → Option PreviewState) → Option PreviewState → Option PreviewState
if_open f none = none
if_open f (some s) = f s

abbrev pub press_all : List PreviewInput → Option PreviewState → Option PreviewState
press_all [] s = s
press_all (k ∷ ks) s = press_all ks (if_open (press k) s)
