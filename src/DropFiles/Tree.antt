-- ===== src/DropFiles/Tree.antt =====
-- What a browser gives for something that is dropped: file system handles or, in older browsers, entries;
-- and the traversals of web/src/utils/dropFiles.ts. `none` is an error of the browser, which ends a
-- traversal.
use omni_store.Common.{Bool, true, false, Option, none, some, List, [], ◌∷◌, ◌++◌}
use omni_store.Texts.{Text, slash}
use omni_store.Files.{File}

-- A handle has its name, and what getFile gives or what its values() give, which may break off.
mutual
  pub data Handle : Type 0 where
    file_handle : Text → Option File → Handle
    directory_handle : Text → Handles → Handle

  pub data Handles : Type 0 where
    no_more broken : Handles
    next : Handle → Handles → Handles

-- An entry is a file, a directory or neither. The reader of a directory gives its children in batches,
-- until one is empty or readEntries fails.
mutual
  pub data Entry : Type 0 where
    file_entry : Text → Option File → Entry
    directory_entry : Text → Batches → Entry
    other_entry : Text → Entry

  pub data Entries : Type 0 where
    nil : Entries
    cons : Entry → Entries → Entries

  pub data Batches : Type 0 where
    end failure : Batches
    batch : Entries → Batches → Batches

-- A copy of a file with another path; `file_id` tells whose bytes they are.
abbrev pub with_relative_path : Text → File → File
with_relative_path path f = record f { webkit_relative_path = path }

abbrev pub one_file : Text → Option File → Option (List File)
one_file path none = none
one_file path (some f) = some (with_relative_path path f ∷ [])

abbrev pub both_files : Option (List File) → Option (List File) → Option (List File)
both_files none b = none
both_files (some a) none = none
both_files (some a) (some b) = some (a ++ b)

abbrev pub under : Text → Text → Text
under parent name = parent ++ (slash ∷ name)

unfoldable mutual
  pub read_handle : Handle → Text → Option (List File)
  read_handle (file_handle name f) path = one_file path f
  read_handle (directory_handle name hs) path = read_handle_directory hs path

  -- readHandleDirectory.
  pub read_handle_directory : Handles → Text → Option (List File)
  read_handle_directory no_more parent = some []
  read_handle_directory broken parent = none
  read_handle_directory (next (file_handle name f) hs) parent =
      both_files (one_file (under parent name) f) (read_handle_directory hs parent)
  read_handle_directory (next (directory_handle name ds) hs) parent =
      both_files (read_handle_directory ds (under parent name)) (read_handle_directory hs parent)

-- The path of an entry: nothing stands before the name of one that is dropped itself.
abbrev pub webkit_path : Text → Text → Text
webkit_path [] name = name
webkit_path (c ∷ s) name = under (c ∷ s) name

abbrev pub is_no_entry : Entries → Bool
is_no_entry nil = true
is_no_entry (cons e es) = false

unfoldable mutual
  -- readWebkitEntry. The children are read when all batches are there.
  pub read_webkit_entry : Entry → Text → Option (List File)
  read_webkit_entry (file_entry name f) parent = one_file (webkit_path parent name) f
  read_webkit_entry (directory_entry name bs) parent = read_batches bs (webkit_path parent name)
  read_webkit_entry (other_entry name) parent = some []

  pub read_entries : Entries → Text → Option (List File)
  read_entries nil parent = some []
  read_entries (cons e es) parent = both_files (read_webkit_entry e parent) (read_entries es parent)

  pub read_batches : Batches → Text → Option (List File)
  read_batches end parent = some []
  read_batches failure parent = none
  read_batches (batch nil bs) parent = some []
  read_batches (batch (cons e es) bs) parent =
      both_files (both_files (read_webkit_entry e parent) (read_entries es parent))
        (read_batches bs parent)
