-- ===== src/FileManager/Directories.antt =====
-- chooseDirectory and readDirectoryFiles of web/src/pages/FileManager.tsx. `localeCompare` is a parameter: whether
-- its result is at most 0.
use Prim.Native.String.{String}
use omni_store.Common.{ℕ, Bool, true, Option, none, some, List, [], if◌then◌else◌}
use omni_store.Texts.{Text}
use omni_store.Files.{File}
use omni_store.DropFiles.Tree.{
  Handles, file_handle, directory_handle, no_more, broken, next, one_file, both_files, under,
}
use omni_store.DropFiles.Collect.{sort_files, is_no_file}
use omni_store.UploadTask.Defs.{UploadKind}
use omni_store.FileManager.Uploads.{UploadMessage, Closure, UploadPage, toast, start_upload}

module _ (at_most : Text → Text → Bool) where
  abbrev pub sorted_files : Option (List File) → Option (List File)
  sorted_files none = none
  sorted_files (some fs) = some (sort_files at_most fs)

  -- The loop of readDirectoryFiles.
  unfoldable pub read_values : Handles → Text → Option (List File)
  read_values no_more parent = some []
  read_values broken parent = none
  read_values (next (file_handle name f) hs) parent =
      both_files (one_file (under parent name) f) (read_values hs parent)
  read_values (next (directory_handle name ds) hs) parent =
      both_files (sorted_files (read_values ds (under parent name))) (read_values hs parent)

  unfoldable pub read_directory_files : Handles → Text → Option (List File)
  unfolding read_values sort_files
  read_directory_files hs parent = sorted_files (read_values hs parent)

-- What showDirectoryPicker comes to: a directory with its name, nothing, an AbortError or another error.
pub data PickerAnswer : Type 0 where
  picked : Text → Handles → PickerAnswer
  no_handle abort_error other_error : PickerAnswer

-- chooseDirectory up to its await: without a picker, the one of the file input is used. Whether the dialog
-- before it is open is left out.
unfoldable pub choose_directory : {W : Type 0} → Bool → UploadPage W → UploadPage W
choose_directory has_picker p = if has_picker then p else record p { folder_upload_mode = true }

module _ {W : Type 0} (new_id : ℕ → ℕ → String) (to_string : Text → String) where
  abbrev pub start_directory : Closure → Option (List File) → UploadPage W → UploadPage W
  start_directory k none p = toast UploadMessage.failed p
  start_directory k (some files) p =
      if is_no_file files
      then toast UploadMessage.nothing_to_upload p
      else start_upload new_id to_string k files UploadKind.directory p

  -- The rest of it, in the closure of its call. An error of the reading is not an AbortError.
  unfoldable pub directory_chosen :
      (Text → Text → Bool) → Closure → PickerAnswer → UploadPage W → UploadPage W
  unfolding read_directory_files start_upload
  directory_chosen at_most k (picked name hs) p =
      start_directory k (read_directory_files at_most hs name) p
  directory_chosen at_most k no_handle p = p
  directory_chosen at_most k abort_error p = p
  directory_chosen at_most k other_error p = toast UploadMessage.failed p
