-- ===== src/FileManager/Navigation.antt =====
-- How web/src/pages/FileManager.tsx goes from directory to directory, and the path segments of
-- web/src/components/files/Breadcrumb.tsx.
use omni_store.Common.{ℕ, suc, Option, none, some, List, [], ◌∷◌, length, take, ◌==◌, if◌then◌else◌}
use omni_store.Texts.{Text, slash, text_eq, last_index_of}
use omni_store.FilePreferences.{FileSortKey, FileSortOrder, FileViewMode, PageSize, FilePreferences}
use omni_store.FileManager.Actions.{entry_path}
use omni_store.Api.Shares.{join_slashes, names_of}

-- The path and the page of the address, the text of the filter, the preferences and the selection. What the
-- handlers set is modelled, and not the effect that clears the selection once the address has changed.
pub record Location : Type 0 where
  pub path : Text
  pub page : ℕ
  pub filter : Text
  pub preferences : FilePreferences
  pub selected_names : List Text

unfoldable pub go_to : Text → Location → Location
go_to seg l = record l { path = entry_path l.path seg; page = 1; filter = [] }

-- `replace(/\/[^/]+$/, '')`: the last slash and what follows it, if anything does.
abbrev pub cut_last : Option ℕ → Text → Text
cut_last none path = path
cut_last (some i) path = if length path == suc i then path else take i path

abbrev pub or_root : Text → Text
or_root [] = slash ∷ []
or_root (c ∷ s) = c ∷ s

unfoldable pub up_path : Text → Text
unfolding last_index_of
up_path path = or_root (cut_last (last_index_of slash path) path)

unfoldable pub up_one : Location → Location
unfolding up_path
up_one l = record l { path = up_path l.path; page = 1 }

unfoldable pub go_page : ℕ → Location → Location
go_page p l = record l { page = p }

-- `changeSort`, once its value is taken apart.
unfoldable pub change_sort : FileSortKey → FileSortOrder → Location → Location
change_sort sort order l = record l {
  preferences = record (l.preferences) { sort = sort; order = order };
  selected_names = [];
  page = 1;
}

unfoldable pub change_page_size : PageSize → Location → Location
change_page_size size l = record l {
  preferences = record (l.preferences) { page_size = size };
  selected_names = [];
  page = 1;
}

unfoldable pub change_view : FileViewMode → Location → Location
change_view view l = record l {
  preferences = record (l.preferences) { view = view };
  selected_names = [];
}

-- The segments that the breadcrumb shows.
unfoldable pub path_segments : Text → List Text
unfolding names_of text_eq
path_segments path = if text_eq path (slash ∷ []) then [] else names_of path

-- `upTo`: where the link of the i-th segment leads, which the last one does not have.
unfoldable pub crumb_link : ℕ → List Text → Text
unfolding join_slashes
crumb_link i segs = slash ∷ join_slashes (take (suc i) segs)
