-- ===== src/FileManager/Previews.antt =====
-- openPreview and openOrDownload of web/src/pages/FileManager.tsx, and of the directory of a share in
-- web/src/pages/PublicShare.tsx. toLowerCase is the parameter `lower`.
use mathlib.Core.Option.{get_or}
use omni_store.Common.{
  ℕ, suc, Bool, true, false, not, Option, none, some, List, [], ◌∷◌, ◌++◌, keep, if◌then◌else◌,
}
use omni_store.Texts.{Text, text_eq}
use omni_store.FilePaths.{join_path}
use omni_store.Api.Calls.{◌>>=◌}
use omni_store.Api.Sources.{source_raw_url, download_file_url}
use omni_store.Api.Shares.{names_of, join_slashes, public_share_raw_url}
use omni_store.Preview.Resolver.{PreviewKind, resolve_preview}
use omni_store.Preview.Modal.{PreviewItem, PreviewState}
use omni_store.FileManager.Defs.{EntryType, FileEntry}

abbrev pub is_file : FileEntry → Bool
is_file e = elim e.type [ EntryType.file ↦ true | _ ↦ false ]

-- `files.map(...)`, where an element may throw.
abbrev pub each : (FileEntry → Option PreviewItem) → List FileEntry → Option (List PreviewItem)
each f [] = some []
each f (e ∷ es) = do x ← f e; xs ← each f es; some (x ∷ xs)

abbrev pub one_later : Option ℕ → Option ℕ
one_later none = none
one_later (some i) = some (suc i)

abbrev pub find_index : Text → List PreviewItem → Option ℕ
find_index name [] = none
find_index name (i ∷ is) =
    let rest = find_index name is in if text_eq i.name name then some 0 else one_later rest

-- The items of a directory, opened at an entry.
abbrev pub open_items : Text → Option (List PreviewItem) → Option PreviewState
open_items name items = do
  is ← items
  some (record { items = is; index = get_or (find_index name is) 0 })

unfoldable pub preview_item_for : Text → Text → FileEntry → Option PreviewItem
unfolding source_raw_url join_path
preview_item_for source_key current_path e = do
  url ← source_raw_url source_key (join_path current_path e.name) false
  some (record { name = e.name; size = some e.size; url = url; download_url = none })

unfoldable pub open_preview : Text → Text → List FileEntry → FileEntry → Option PreviewState
unfolding preview_item_for
open_preview source_key current_path entries e =
    open_items e.name (each (preview_item_for source_key current_path) (keep is_file entries))

pub data Opened : Type 0 where
  preview : PreviewState → Opened
  download : Text → Opened

abbrev pub is_unsupported : PreviewKind → Bool
is_unsupported PreviewKind.unsupported = true
is_unsupported _ = false

abbrev pub can_preview : (Text → Text) → FileEntry → Bool
can_preview lower e =
    not (is_unsupported (resolve_preview lower (record { name = e.name; size = some e.size })))

abbrev pub open_as : Bool → Option PreviewState → Option Text → Option Opened
open_as true s url = do t ← s; some (preview t)
open_as false s url = do u ← url; some (download u)

unfoldable pub open_or_download :
    (Text → Text) → Text → Text → List FileEntry → FileEntry → Option Opened
unfolding open_preview resolve_preview download_file_url join_path
open_or_download lower source_key current_path entries e =
    open_as (can_preview lower e) (open_preview source_key current_path entries e)
      (download_file_url source_key (join_path current_path e.name))

-- The same for the directory of a share.
unfoldable pub child_path : Text → Text → Text
unfolding names_of join_slashes
child_path path name = join_slashes (names_of path ++ (name ∷ []))

unfoldable pub share_item_for : Text → Text → FileEntry → Option PreviewItem
unfolding child_path public_share_raw_url
share_item_for share_key path e = do
  url ← public_share_raw_url share_key (child_path path e.name) false
  saved ← public_share_raw_url share_key (child_path path e.name) true
  some (record { name = e.name; size = some e.size; url = url; download_url = some saved })

unfoldable pub open_share_preview : Text → Text → List FileEntry → FileEntry → Option PreviewState
unfolding share_item_for
open_share_preview share_key path entries e =
    open_items e.name (each (share_item_for share_key path) (keep is_file entries))

unfoldable pub open_or_download_shared :
    (Text → Text) → Text → Text → List FileEntry → FileEntry → Option Opened
unfolding open_share_preview resolve_preview child_path public_share_raw_url
open_or_download_shared lower share_key path entries e =
    open_as (can_preview lower e) (open_share_preview share_key path entries e)
      (public_share_raw_url share_key (child_path path e.name) true)
