-- ===== src/FilePreferences/Laws.antt =====
-- What is read of the preferences after some were written (web/src/utils/filePreferences.ts).
use Prim.Native.String.{String}
use omni_store.Common.{
  Bool, true, false, ◌&&◌, Option, none, some, List, [], ◌∷◌, ◌++◌, if◌then◌else◌, ◌≡◌, refl, arith,
}
use omni_store.Texts.{Text, text_eq, text_eq_iff}
use omni_store.FilePreferences.{
  FilePreferences, FileViewMode, PageSize, FileSortKey, FileSortOrder, key_prefix, Stored, json,
  StorageLike, refusing, full, items, Storages, chosen, get_item, set_item, preferences_of,
  parse_stored, read_storage, read_file_preferences, preferences_json, write_storage,
  write_file_preferences, is_record, text_is, number_is, page_size_of, sort_of, view_text,
  sort_text, order_text, page_number,
}
use omni_store.Uri.Bytes.{codes}
use omni_store.Api.Json.{Json, str, number, member, find}

text_eq-append : (p s t : Text) → text_eq (p ++ s) (p ++ t) ≡ text_eq s t
unfolding text_eq
text_eq-append [] s t = refl
text_eq-append (c ∷ p) s t = ground (arith, text_eq-append p s t)

get_item-set_item :
    (j k : Text) (v : Stored) (m : List (Text × Stored))
    → get_item j (set_item k v m) ≡ (if text_eq k j then some v else get_item j m)
unfolding get_item set_item
get_item-set_item j k v [] = refl
get_item-set_item j k v ((i, w) ∷ m) =
    ground (arith, text_eq_iff i k, text_eq_iff k j, text_eq_iff i j, get_item-set_item j k v m)

abbrev text_json : String → Option Json
text_json s = some (str (codes s))

view_read :
    (v : FileViewMode)
    → (if text_is "grid" (text_json (view_text v)) then FileViewMode.grid else FileViewMode.list)
      ≡ v
unfolding text_is text_eq
view_read FileViewMode.list = refl
view_read FileViewMode.grid = refl

order_read :
    (o : FileSortOrder)
    → (if text_is "desc" (text_json (order_text o)) then FileSortOrder.desc else FileSortOrder.asc)
      ≡ o
unfolding text_is text_eq
order_read FileSortOrder.asc = refl
order_read FileSortOrder.desc = refl

sort_read : (k : FileSortKey) → sort_of (text_json (sort_text k)) ≡ k
unfolding text_is text_eq
sort_read FileSortKey.name = refl
sort_read FileSortKey.size = refl
sort_read FileSortKey.mtime = refl

page_read : (n : PageSize) → page_size_of (some (number (page_number n))) ≡ n
unfolding number_is
page_read PageSize.twenty = refl
page_read PageSize.fifty = refl
page_read PageSize.hundred = refl

parse-preferences_json : (p : FilePreferences) → parse_stored (some (json (preferences_json p))) ≡ p
unfolding parse_stored preferences_json is_record preferences_of member find
parse-preferences_json p =
    rw (view_read p.view, page_read p.page_size, sort_read p.sort, order_read p.order)

parse_if :
    (b : Bool) (p : FilePreferences) (v : Option Stored)
    → parse_stored (if b then some (json (preferences_json p)) else v)
      ≡ (if b then p else parse_stored v)
parse_if true p v = parse-preferences_json p
parse_if false p v = refl

parse-set_item :
    (q j k : Text) (p : FilePreferences) (m : List (Text × Stored))
    → parse_stored (get_item (q ++ j) (set_item (q ++ k) (json (preferences_json p)) m))
      ≡ (if text_eq k j then p else parse_stored (get_item (q ++ j) m))
parse-set_item q j k p m = rw (
  get_item-set_item (q ++ j) (q ++ k) (json (preferences_json p)) m,
  text_eq-append q k j,
  parse_if (text_eq k j) p (get_item (q ++ j) m),
)

abbrev is_writable : StorageLike → Bool
is_writable (items m) = true
is_writable _ = false

after_write :
    (j k : Text) (p : FilePreferences) (s : StorageLike)
    → read_storage j (write_storage k p s)
      ≡ (if is_writable s && text_eq k j then p else read_storage j s)
unfolding read_storage write_storage
after_write j k p refusing = refl
after_write j k p (full m) = refl
after_write j k p (items m) = parse-set_item key_prefix j k p m

abbrev ReadsBack : Text → Text → FilePreferences → Storages → Type 0
ReadsBack j k p w =
    read_file_preferences j (write_file_preferences k p w)
    ≡ (if is_writable (chosen w) && text_eq k j then p else read_file_preferences j w)

reads_back :
    (j k : Text) (p : FilePreferences) (g : Option StorageLike) (l : StorageLike)
    → ReadsBack j k p (record { given = g; local_storage = l })
unfolding read_file_preferences write_file_preferences chosen
reads_back j k p none l = after_write j k p l
reads_back j k p (some s) l = after_write j k p s

-- After preferences are written for a source, the same preferences are read for it when the storage
-- takes them, and what is read is what was read before for every other source, and for every source
-- when the storage refuses them.
pub read-write_file_preferences :
    (j k : Text) (p : FilePreferences) (w : Storages)
    → read_file_preferences j (write_file_preferences k p w)
      ≡ (if is_writable (chosen w) && text_eq k j then p else read_file_preferences j w)
read-write_file_preferences j k p w = reads_back j k p w.given w.local_storage
