-- ===== src/Api/Sources.antt =====
-- web/src/api/sources.ts: files, uploads and the trash of a storage source.
use omni_store.Common.{
  ℕ, Bool, true, false, not, Option, none, some, List, [], ◌∷◌, ◌++◌, ◌==◌, if◌then◌else◌,
}
use omni_store.Texts.{Text}
use omni_store.Files.{File}
use omni_store.Uri.Bytes.{codes}
use omni_store.Uri.Escape.{encode_uri_component}
use omni_store.Uri.Query.{Params, set_param, set_when, params_text}
use omni_store.Uri.Decimal.{decimal}
use omni_store.Api.Json.{Json, str, array, obj, items, texts_of}
use omni_store.Api.Client.{Method, form_text, form_file, form, ApiCall}
use omni_store.Api.Calls.{
  ◌>>=◌, Endpoint, whole_of, list_of, ignoring, plain, with_method, with_body, with_json,
}

-- An optional argument that is missing or empty is falsy.
abbrev pub given : Option Text → Bool
given none = false
given (some []) = false
given (some (c ∷ s)) = true

abbrev pub text_or : Option Text → Text
text_or none = []
text_or (some t) = t

-- So is a number that is missing or zero.
abbrev pub given_number : Option ℕ → Bool
given_number none = false
given_number (some n) = not (n == 0)

abbrev pub number_or : Option ℕ → ℕ
number_or none = 0
number_or (some n) = n

abbrev pub set_text : Text → Option Text → Params → Params
set_text name value ps = set_when (given value) name (text_or value) ps

abbrev pub set_number : Text → Option ℕ → Params → Params
set_number name value ps = set_when (given_number value) name (decimal (number_or value)) ps

pub record SearchParams : Type 0 where
  pub query : Text
  pub source_key : Option Text
  pub page : Option ℕ
  pub page_size : Option ℕ

pub record ListFilesParams : Type 0 where
  pub path : Text
  pub page : Option ℕ
  pub page_size : Option ℕ
  pub sort : Option Text
  pub order : Option Text

pub record UploadFileOptions : Type 0 where
  pub relative_path : Option Text
  pub overwrite : Bool

unfoldable pub fetch_my_sources : Endpoint
fetch_my_sources = list_of (plain (codes "/api/v1/sources"))

unfoldable pub search_files : SearchParams → Endpoint
unfolding set_param params_text decimal
search_files params =
    let query = set_number (codes "page_size") params.page_size (
      set_number (codes "page") params.page
        (set_text (codes "source_key") params.source_key ((codes "q", params.query) ∷ []))) in
    whole_of (plain (codes "/api/v1/search?" ++ params_text query))

unfoldable pub fetch_path_permission : Text → Text → Endpoint
unfolding encode_uri_component params_text
fetch_path_permission source_key path =
    let query = (codes "path", path) ∷ [] in
    whole_of (do
      key ← encode_uri_component source_key
      plain (codes "/api/v1/sources/" ++ (key ++ (codes "/permission?" ++ params_text query))))

unfoldable pub fetch_source_quota : Text → Endpoint
unfolding encode_uri_component
fetch_source_quota source_key = whole_of (do
  key ← encode_uri_component source_key
  plain (codes "/api/v1/sources/" ++ (key ++ codes "/quota")))

unfoldable pub list_files : Text → ListFilesParams → Endpoint
unfolding encode_uri_component set_param params_text decimal
list_files source_key params =
    let q = set_text (codes "order") params.order (
      set_text (codes "sort") params.sort (
        set_number (codes "page_size") params.page_size
          (set_number (codes "page") params.page ((codes "path", params.path) ∷ [])))) in
    whole_of (do
      key ← encode_uri_component source_key
      plain (codes "/api/v1/sources/" ++ (key ++ (codes "/files?" ++ params_text q))))

unfoldable pub download_file_url : Text → Text → Option Text
unfolding encode_uri_component
download_file_url source_key path = do
  key ← encode_uri_component source_key
  p ← encode_uri_component path
  some (codes "/api/v1/sources/" ++ (key ++ (codes "/download?path=" ++ p)))

unfoldable pub source_raw_url : Text → Text → Bool → Option Text
unfolding encode_uri_component set_param params_text
source_raw_url source_key path download =
    let query = set_when download (codes "download") (codes "1") ((codes "path", path) ∷ []) in
    do
      key ← encode_uri_component source_key
      some (codes "/api/v1/sources/" ++ (key ++ (codes "/raw?" ++ params_text query)))

-- The call of downloadArchive, by apiFetchBlob.
unfoldable pub download_archive_call : Text → List Text → Option ApiCall
unfolding encode_uri_component
download_archive_call source_key paths = do
  key ← encode_uri_component source_key
  with_json Method.post (codes "/api/v1/sources/" ++ (key ++ codes "/download/archive"))
      (obj (("paths", array (items (texts_of paths))) ∷ []))

unfoldable pub create_folder : Text → Text → Text → Endpoint
unfolding encode_uri_component
create_folder source_key path name = ignoring (do
  key ← encode_uri_component source_key
  with_json Method.post (codes "/api/v1/sources/" ++ (key ++ codes "/folders"))
      (obj (("path", str path) ∷ ("name", str name) ∷ [])))

unfoldable pub upload_file : Text → Text → File → UploadFileOptions → Endpoint
unfolding encode_uri_component set_param params_text
upload_file source_key path file options =
    let q =
      set_when options.overwrite (codes "overwrite") (codes "true") ((codes "path", path) ∷ []) in
    let the_file = ("file", form_file file) ∷ [] in
    let parts =
      if given options.relative_path
      then ("relative_path", form_text (text_or options.relative_path)) ∷ the_file
      else the_file in
    ignoring (do
      key ← encode_uri_component source_key
      with_body Method.post
          (codes "/api/v1/sources/" ++ (key ++ (codes "/upload?" ++ params_text q))) (form parts))

unfoldable pub delete_file : Text → Text → Endpoint
unfolding encode_uri_component
delete_file source_key path = ignoring (do
  key ← encode_uri_component source_key
  p ← encode_uri_component path
  with_method Method.delete (codes "/api/v1/sources/" ++ (key ++ (codes "/files?path=" ++ p))))

unfoldable pub rename_file : Text → Text → Text → Endpoint
unfolding encode_uri_component
rename_file source_key path new_name = ignoring (do
  key ← encode_uri_component source_key
  with_json Method.post (codes "/api/v1/sources/" ++ (key ++ codes "/files/rename"))
      (obj (("path", str path) ∷ ("new_name", str new_name) ∷ [])))

abbrev pub transfer : Text → Text → Text → Json
transfer path target_source_key target_path = obj (
    ("path", str path)
    ∷ ("target_source_key", str target_source_key)
    ∷ ("target_path", str target_path)
    ∷ [])

unfoldable pub move_file : Text → Text → Text → Text → Endpoint
unfolding encode_uri_component
move_file source_key path target_source_key target_path = whole_of (do
  key ← encode_uri_component source_key
  with_json Method.post (codes "/api/v1/sources/" ++ (key ++ codes "/files/move"))
      (transfer path target_source_key target_path))

unfoldable pub copy_file : Text → Text → Text → Text → Endpoint
unfolding encode_uri_component
copy_file source_key path target_source_key target_path = whole_of (do
  key ← encode_uri_component source_key
  with_json Method.post (codes "/api/v1/sources/" ++ (key ++ codes "/files/copy"))
      (transfer path target_source_key target_path))

unfoldable pub fetch_trash : Text → Endpoint
unfolding encode_uri_component
fetch_trash source_key = list_of (do
  key ← encode_uri_component source_key
  plain (codes "/api/v1/sources/" ++ (key ++ codes "/trash")))

unfoldable pub restore_trash : Text → Text → Text → Endpoint
unfolding encode_uri_component
restore_trash source_key trash_key target_path = whole_of (do
  key ← encode_uri_component source_key
  trash ← encode_uri_component trash_key
  with_json Method.post
      (codes "/api/v1/sources/" ++ (key ++ (codes "/trash/" ++ (trash ++ codes "/restore"))))
      (obj (("target_path", str target_path) ∷ [])))

unfoldable pub purge_trash : Text → Text → Endpoint
unfolding encode_uri_component
purge_trash source_key trash_key = ignoring (do
  key ← encode_uri_component source_key
  trash ← encode_uri_component trash_key
  with_method Method.delete (codes "/api/v1/sources/" ++ (key ++ (codes "/trash/" ++ trash))))
