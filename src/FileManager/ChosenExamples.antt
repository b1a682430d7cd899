-- ===== src/FileManager/ChosenExamples.antt =====
-- A directory "d" with the files "b" and "a", which is chosen and dropped.
use omni_store.Common.{ℕ, Bool, true, false, some, [], ◌∷◌, leb, length, ◌≡◌, refl, arith}
use omni_store.Texts.{Text, slash}
use omni_store.Files.{File, upload_relative_path}
use omni_store.DropFiles.Tree.{Handles, file_handle, next, no_more}
use omni_store.DropFiles.Collect.{collect_dropped_upload}
use omni_store.FileManager.Directories.{read_directory_files}
use omni_store.FileManager.ChosenFiles.{drop_of, as_dropped, collect_dropped_upload-chosen}

abbrev named_file : ℕ → File
named_file c = record { file_id = c; name = c ∷ []; webkit_relative_path = []; size = 1 }

abbrev two_files : Handles
two_files =
    next (file_handle (b'b' ∷ b'b' ∷ []) (some (named_file b'b')))
      (next (file_handle (b'a' ∷ []) (some (named_file b'a'))) no_more)

abbrev no_longer : Text → Text → Bool
no_longer s t = leb (length s) (length t)

chosen :
    read_directory_files no_longer two_files (b'd' ∷ [])
    ≡ some (
        record (named_file b'a') { webkit_relative_path = b'd' ∷ slash ∷ b'a' ∷ [] }
        ∷ record (named_file b'b') { webkit_relative_path = b'd' ∷ slash ∷ b'b' ∷ b'b' ∷ [] }
        ∷ [])
unfolding read_directory_files upload_relative_path
chosen = refl

no_longer_total : (s t : Text) → no_longer s t ≡ false → no_longer t s ≡ true
no_longer_total s t h = ground (arith, h)

no_longer_trans :
    (s t u : Text) → no_longer s t ≡ true → no_longer t u ≡ true → no_longer s u ≡ true
no_longer_trans s t u h k = ground (arith, h, k)

collect_dropped_upload-chosen_example :
    collect_dropped_upload no_longer (drop_of (b'd' ∷ []) two_files [])
    ≡ as_dropped no_longer [] (read_directory_files no_longer two_files (b'd' ∷ []))
collect_dropped_upload-chosen_example =
    collect_dropped_upload-chosen no_longer no_longer_total no_longer_trans (b'd' ∷ []) two_files []
