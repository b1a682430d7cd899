-- ===== src/FileManager/BrowseExamples.antt =====
-- A directory with a subdirectory and two files, opened at the second file.
use omni_store.Common.{some, List, [], ◌∷◌, ◌≡◌, refl}
use omni_store.Texts.{Text, slash}
use omni_store.Uri.Bytes.{codes}
use omni_store.Uri.Escape.{encode_uri_component}
use omni_store.Preview.Modal.{PreviewState}
use omni_store.FileManager.Defs.{EntryType, FileEntry}
use omni_store.FileManager.Previews.{open_preview}
use omni_store.FileManager.Browsing.{Browses, open_preview-Browses}

abbrev entry_of : Text → EntryType → FileEntry
entry_of name type = record { name = name; type = type; size = 5; mtime = [] }

abbrev second_file : FileEntry
second_file = entry_of (b'c' ∷ []) EntryType.file

abbrev three_entries : List FileEntry
three_entries =
    entry_of (b'a' ∷ []) EntryType.dir ∷ entry_of (b'b' ∷ []) EntryType.file ∷ second_file ∷ []

open_preview-Browses_example :
    (s : PreviewState) × (open_preview (codes "k") (slash ∷ []) three_entries second_file ≡ some s)
    × Browses (codes "k") (slash ∷ []) three_entries second_file s
unfolding encode_uri_component
open_preview-Browses_example =
    open_preview-Browses (codes "k") (slash ∷ []) (codes "k") three_entries second_file 2 refl refl
      refl
