-- ===== src/DropFiles/Examples.antt =====
-- A directory "d" with the file "b" and the directory "e" of the file "a".
use omni_store.Common.{
  ℕ, Bool, true, false, none, some, List, [], ◌∷◌, leb, length, ◌≡◌, refl, arith, All,
}
use omni_store.Texts.{Text, slash}
use omni_store.Files.{File}
use omni_store.DropFiles.Tree.{
  Handle, Handles, file_handle, directory_handle, next, no_more, read_handle_directory,
}
use omni_store.DropFiles.Collect.{DataTransfer, collect_dropped_upload, of_candidate}
use omni_store.DropFiles.Laws.{
  as_entry, of_candidate-as_entry, IsBelow, read_handle_directory-IsBelow,
}
use omni_store.DropFiles.Outcome.{DropOutcome, collect_dropped_upload-DropOutcome}

abbrev file : ℕ → File
file c = record { file_id = c; name = c ∷ []; webkit_relative_path = []; size = 1 }

abbrev inner : Handles
inner = next (file_handle (b'a' ∷ []) (some (file b'a'))) no_more

abbrev children : Handles
children =
    next (file_handle (b'b' ∷ []) (some (file b'b')))
      (next (directory_handle (b'e' ∷ []) inner) no_more)

abbrev directory : Handle
directory = directory_handle (b'd' ∷ []) children

of_candidate-as_entry_example :
    of_candidate (some directory) none none ≡ of_candidate none (some (as_entry directory)) none
of_candidate-as_entry_example = of_candidate-as_entry directory none none tt

abbrev path : Text
path = b'd' ∷ []

abbrev read : List File
read =
    record (file b'b') { webkit_relative_path = b'd' ∷ slash ∷ b'b' ∷ [] }
    ∷ record (file b'a') { webkit_relative_path = b'd' ∷ slash ∷ b'e' ∷ slash ∷ b'a' ∷ [] }
    ∷ []

read_lem : read_handle_directory children path ≡ some read
unfolding read_handle_directory
read_lem = refl

read_handle_directory-IsBelow_example : All (IsBelow path) read
read_handle_directory-IsBelow_example = read_handle_directory-IsBelow children path read read_lem

-- Paths ordered by their length.
abbrev shorter : Text → Text → Bool
shorter s t = leb (length s) (length t)

shorter_total : (s t : Text) → shorter s t ≡ false → shorter t s ≡ true
shorter_total s t h = ground (arith, h)

abbrev drag : DataTransfer
drag = record {
  items =
      record { is_file = true; handle = some directory; entry = none; file = none }
      ∷ record { is_file = true; handle = none; entry = none; file = some (file b'z') }
      ∷ [];
  files = [];
}

collect_dropped_upload-DropOutcome_example :
    DropOutcome shorter drag (collect_dropped_upload shorter drag)
collect_dropped_upload-DropOutcome_example =
    collect_dropped_upload-DropOutcome shorter shorter_total drag
