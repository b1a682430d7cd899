-- ===== src/FilePaths.antt =====
-- web/src/utils/filePaths.ts: paths inside a storage source.
pub mod Laws
mod Inside
mod Examples
use omni_store.Common.{
  ℕ, zero, suc, Bool, ◌||◌, Option, none, some, [], ◌∷◌, ◌++◌, take, if◌then◌else◌,
}
use omni_store.Texts.{
  Text, slash, text_eq, starts_with, last_index_of, strip_leading, strip_trailing,
}

unfoldable pub normalize_path : Text → Text
unfolding strip_leading strip_trailing text_eq
normalize_path path =
    let normalized = slash ∷ strip_trailing (strip_leading path) in
    if text_eq normalized (slash ∷ []) then slash ∷ [] else normalized

unfoldable pub join_path : Text → Text → Text
unfolding normalize_path
join_path directory name =
    let normalized = normalize_path directory in
    if text_eq normalized (slash ∷ []) then slash ∷ name else normalized ++ (slash ∷ name)

-- `slash <= 0 ? '/' : normalized.slice(0, slash)`.
abbrev pub parent_at : Option ℕ → Text → Text
parent_at none normalized = slash ∷ []
parent_at (some zero) normalized = slash ∷ []
parent_at (some (suc i)) normalized = take (suc i) normalized

unfoldable pub parent_path : Text → Text
unfolding normalize_path last_index_of
parent_path path =
    let normalized = normalize_path path in parent_at (last_index_of slash normalized) normalized

unfoldable pub is_path_inside : Text → Text → Bool
unfolding normalize_path starts_with
is_path_inside path directory =
    let normalized_path = normalize_path path in
    let normalized_directory = normalize_path directory in
    text_eq normalized_path normalized_directory
    || starts_with normalized_path (normalized_directory ++ (slash ∷ []))
