-- ===== src/DropFiles/Collect.antt =====
-- collectDroppedUpload of web/src/utils/dropFiles.ts. `localeCompare` is a parameter: whether its result
-- is at most 0.
use omni_store.Common.{
  Bool, true, false, ◌||◌, Option, none, some, List, [], ◌∷◌, ◌++◌, any, keep, length, ◌==◌,
  if◌then◌else◌,
}
use omni_store.Texts.{Text, slash}
use omni_store.Files.{File, upload_relative_path}
use omni_store.DropFiles.Tree.{
  Handle, file_handle, directory_handle, Entry, file_entry, directory_entry, other_entry, one_file,
  read_handle_directory, read_webkit_entry,
}

pub data DroppedUploadKind : Type 0 where
  file files directory : DroppedUploadKind

pub record DroppedUpload : Type 0 where
  pub files : List File
  pub kind : DroppedUploadKind

-- An item of a DataTransfer: whether its kind is 'file', and what its handle (`none` where there is none, or
-- where asking for it fails), its entry and its file are.
pub record DropItem : Type 0 where
  pub is_file : Bool
  pub handle : Option Handle
  pub entry : Option Entry
  pub file : Option File

pub record DataTransfer : Type 0 where
  pub items : List DropItem
  pub files : List File

-- The files that one item adds, and whether it is a directory.
pub record Found : Type 0 where
  pub files : List File
  pub contains_directory : Bool

abbrev pub found : Bool → Option (List File) → Option Found
found d none = none
found d (some fs) = some (record { files = fs; contains_directory = d })

abbrev pub of_file : Option File → Option Found
of_file none = found false (some [])
of_file (some f) = found false (some (f ∷ []))

abbrev pub of_entry : Option Entry → Option File → Option Found
of_entry (some (directory_entry n bs)) f = found true (read_webkit_entry (directory_entry n bs) [])
of_entry (some (file_entry n g)) f = found false (read_webkit_entry (file_entry n g) [])
of_entry (some (other_entry n)) f = found false (read_webkit_entry (other_entry n) [])
of_entry none f = of_file f

abbrev pub of_candidate : Option Handle → Option Entry → Option File → Option Found
of_candidate (some (directory_handle n hs)) e f = found true (read_handle_directory hs n)
of_candidate (some (file_handle n g)) e f = found false (one_file n g)
of_candidate none e f = of_entry e f

abbrev pub add_found : Option Found → Option Found → Option Found
add_found none b = none
add_found (some a) none = none
add_found (some a) (some b) = some (record {
  files = a.files ++ b.files;
  contains_directory = a.contains_directory || b.contains_directory;
})

-- The loop over the candidates.
unfoldable pub collect : List DropItem → Option Found
unfolding read_handle_directory read_webkit_entry
collect [] = found false (some [])
collect (i ∷ is) = add_found (of_candidate i.handle i.entry i.file) (collect is)

abbrev pub kind_of_files : Bool → List File → DroppedUploadKind
kind_of_files contains_directory fs =
    if contains_directory
    then DroppedUploadKind.directory
    else if length fs == 1
    then DroppedUploadKind.file
    else DroppedUploadKind.files

abbrev pub has_slash : File → Bool
has_slash f = any (λ c. c == slash) (upload_relative_path f)

abbrev pub is_no_file : List File → Bool
is_no_file [] = true
is_no_file (f ∷ fs) = false

abbrev pub is_no_item : List DropItem → Bool
is_no_item [] = true
is_no_item (i ∷ is) = false

module _ (at_most : Text → Text → Bool) where
  abbrev pub before : File → File → Bool
  before f g = at_most (upload_relative_path f) (upload_relative_path g)

  unfoldable pub insert_file : File → List File → List File
  insert_file f [] = f ∷ []
  insert_file f (g ∷ gs) =
      let rest = insert_file f gs in if before f g then f ∷ g ∷ gs else g ∷ rest

  -- `files.sort((left, right) => uploadPath(left).localeCompare(uploadPath(right)))`; equal ones stay in order.
  unfoldable pub sort_files : List File → List File
  unfolding insert_file
  sort_files [] = []
  sort_files (f ∷ fs) = insert_file f (sort_files fs)

  unfoldable pub from_flat_files : List File → DroppedUpload
  unfolding sort_files
  from_flat_files fs = record { files = sort_files fs; kind = kind_of_files (any has_slash fs) fs }

  abbrev pub collected : List File → Option Found → Option DroppedUpload
  collected flat none = none
  collected flat (some r) =
      if is_no_file r.files
      then some (from_flat_files flat)
      else some (record {
        files = sort_files r.files;
        kind = kind_of_files r.contains_directory (sort_files r.files);
      })

  -- `none` is an error of the browser.
  unfoldable pub collect_dropped_upload : DataTransfer → Option DroppedUpload
  unfolding collect from_flat_files
  collect_dropped_upload transfer =
      let items = keep (λ i. i.is_file) transfer.items in
      if is_no_item items
      then some (from_flat_files transfer.files)
      else collected transfer.files (collect items)
