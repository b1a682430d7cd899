-- ===== src/FilePreferences/Examples.antt =====
-- Preferences written and read in a storage that takes them, and texts that are no preferences.
use omni_store.Common.{none, [], ◌∷◌, ◌++◌, ◌≡◌, refl}
use omni_store.Texts.{text_eq}
use omni_store.Uri.Bytes.{codes}
use omni_store.Api.Json.{member, null, number, str, obj}
use omni_store.FilePreferences.{
  FilePreferences, FileViewMode, PageSize, FileSortKey, FileSortOrder, defaults, key_prefix, Stored,
  broken, json, items, Storages, read_file_preferences, write_file_preferences, chosen,
}
use omni_store.FilePreferences.Laws.{read-write_file_preferences}

abbrev wide : FilePreferences
wide = record {
  view = FileViewMode.grid;
  page_size = PageSize.hundred;
  sort = FileSortKey.mtime;
  order = FileSortOrder.desc;
}

abbrev browser : Stored → Storages
browser v = record { given = none; local_storage = items ((key_prefix ++ codes "home", v) ∷ []) }

read-write_file_preferences_example :
    read_file_preferences
      (codes "home")
      (write_file_preferences (codes "home") wide (browser broken))
    ≡ wide
unfolding chosen text_eq
read-write_file_preferences_example =
    read-write_file_preferences (codes "home") (codes "home") wide (browser broken)

abbrev home : Stored → FilePreferences
home v = read_file_preferences (codes "home") (browser v)

-- A size that is no page size, and a text that is no view, count as the default.
no_preferences :
    (home broken ≡ defaults)
    × (home (json null) ≡ defaults)
    × (home (json (obj (("view", str (codes "tree")) ∷ ("pageSize", number 30) ∷ []))) ≡ defaults)
unfolding read_file_preferences text_eq member
no_preferences = (refl, refl, refl)
