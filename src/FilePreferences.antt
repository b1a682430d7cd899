-- ===== src/FilePreferences.antt =====
-- web/src/utils/filePreferences.ts: how the directory of a source is shown, kept in the browser.
mod Laws
mod Examples
use Prim.Native.String.{String}
use text.Mathlib.Text.{◌==◌ as ◌=ₛ◌}
use omni_store.Common.{
  ℕ, Bool, true, false, not, ◌&&◌, ◌||◌, Option, none, some, List, [], ◌∷◌, ◌++◌, ◌==◌,
  if◌then◌else◌,
}
use omni_store.Texts.{Text, text_eq}
use omni_store.Uri.Bytes.{codes}
use omni_store.Api.Json.{Json, null, boolean, number, str, array, object, obj, member}

pub data FileSortKey : Type 0 where
  name size mtime : FileSortKey

pub data FileSortOrder : Type 0 where
  asc desc : FileSortOrder

pub data FileViewMode : Type 0 where
  list grid : FileViewMode

-- The sizes of a page, 20, 50 and 100.
pub data PageSize : Type 0 where
  twenty fifty hundred : PageSize

pub record FilePreferences : Type 0 where
  pub view : FileViewMode
  pub page_size : PageSize
  pub sort : FileSortKey
  pub order : FileSortOrder

abbrev pub defaults : FilePreferences
defaults = record {
  view = FileViewMode.list;
  page_size = PageSize.twenty;
  sort = FileSortKey.name;
  order = FileSortOrder.asc;
}

abbrev pub key_prefix : Text
key_prefix = codes "omnistore:file-preferences:"

-- A text in storage: the empty one, one that is not JSON, or the text of a value.
pub data Stored : Type 0 where
  empty broken : Stored
  json : Json → Stored

-- A storage: one that throws at each access, one that throws at each write, or one that takes all.
pub data StorageLike : Type 0 where
  refusing : StorageLike
  full items : List (Text × Stored) → StorageLike

-- The optional argument `storage` and window.localStorage.
pub record Storages : Type 0 where
  pub given : Option StorageLike
  pub local_storage : StorageLike

unfoldable pub chosen : Storages → StorageLike
chosen w = elim w.given [ some s ↦ s | none ↦ w.local_storage ]

unfoldable pub get_item : Text → List (Text × Stored) → Option Stored
get_item k [] = none
get_item k ((j, v) ∷ m) = if text_eq j k then some v else get_item k m

unfoldable pub set_item : Text → Stored → List (Text × Stored) → List (Text × Stored)
set_item k v [] = (k, v) ∷ []
set_item k v ((j, w) ∷ m) = if text_eq j k then (k, v) ∷ m else (j, w) ∷ set_item k v m

unfoldable pub text_is : String → Option Json → Bool
text_is s (some (str t)) = text_eq t (codes s)
text_is s _ = false

unfoldable pub number_is : ℕ → Option Json → Bool
number_is n (some (number k)) = k == n
number_is n _ = false

abbrev pub page_size_of : Option Json → PageSize
page_size_of v =
    if number_is 50 v
    then PageSize.fifty
    else if number_is 100 v
    then PageSize.hundred
    else PageSize.twenty

abbrev pub sort_of : Option Json → FileSortKey
sort_of v =
    if text_is "size" v
    then FileSortKey.size
    else if text_is "mtime" v
    then FileSortKey.mtime
    else FileSortKey.name

unfoldable pub preferences_of : Json → FilePreferences
unfolding text_is number_is
preferences_of value = record {
  view = if text_is "grid" (member "view" value) then FileViewMode.grid else FileViewMode.list;
  page_size = page_size_of (member "pageSize" value);
  sort = sort_of (member "sort" value);
  order = if text_is "desc" (member "order" value) then FileSortOrder.desc else FileSortOrder.asc;
}

-- Whether `!value || typeof value !== 'object'` is false: objects and arrays.
unfoldable pub is_record : Json → Bool
is_record (object fs) = true
is_record (array xs) = true
is_record _ = false

unfoldable pub parse_stored : Option Stored → FilePreferences
unfolding is_record preferences_of
parse_stored (some (json value)) = if is_record value then preferences_of value else defaults
parse_stored _ = defaults

unfoldable pub read_storage : Text → StorageLike → FilePreferences
unfolding parse_stored get_item
read_storage key refusing = defaults
read_storage key (full m) = parse_stored (get_item (key_prefix ++ key) m)
read_storage key (items m) = parse_stored (get_item (key_prefix ++ key) m)

unfoldable pub read_file_preferences : Text → Storages → FilePreferences
unfolding read_storage chosen
read_file_preferences source_key w = read_storage source_key (chosen w)

abbrev pub view_text : FileViewMode → String
view_text FileViewMode.list = "list"
view_text FileViewMode.grid = "grid"

abbrev pub page_number : PageSize → ℕ
page_number PageSize.twenty = 20
page_number PageSize.fifty = 50
page_number PageSize.hundred = 100

abbrev pub sort_text : FileSortKey → String
sort_text FileSortKey.name = "name"
sort_text FileSortKey.size = "size"
sort_text FileSortKey.mtime = "mtime"

abbrev pub order_text : FileSortOrder → String
order_text FileSortOrder.asc = "asc"
order_text FileSortOrder.desc = "desc"

unfoldable pub preferences_json : FilePreferences → Json
preferences_json p = obj (
    ("view", str (codes (view_text p.view)))
    ∷ ("pageSize", number (page_number p.page_size))
    ∷ ("sort", str (codes (sort_text p.sort)))
    ∷ ("order", str (codes (order_text p.order)))
    ∷ [])

unfoldable pub write_storage : Text → FilePreferences → StorageLike → StorageLike
unfolding set_item preferences_json
write_storage key p refusing = refusing
write_storage key p (full m) = full m
write_storage key p (items m) = items (set_item (key_prefix ++ key) (json (preferences_json p)) m)

unfoldable pub write_file_preferences : Text → FilePreferences → Storages → Storages
unfolding write_storage
write_file_preferences source_key p w = elim w.given [
  | some s ↦ record w { given = some (write_storage source_key p s) }
  | none ↦ record w { local_storage = write_storage source_key p w.local_storage }
]
