-- ===== src/Api/SourceQueries.antt =====
-- The reading of the lists and searches of web/src/api/sources.ts, whose queries depend on what is given,
-- and of all of its requests together.
use omni_store.Common.{Bool, false, List, [], ◌∷◌, ◌++◌, ◌≡◌, refl, arith}
use omni_store.Texts.{Text, text_eq}
use omni_store.Files.{File}
use omni_store.Uri.Bytes.{codes}
use omni_store.Uri.Query.{Params}
use omni_store.Uri.Decimal.{decimal}
use omni_store.Uri.Reading.{path_text}
use omni_store.Api.Client.{Method}
use omni_store.Api.Calls.{◌>>=◌}
use omni_store.Api.Routes.{
  route_of, route_call, meant, meant_component, word, arg, with_component, path_route, query_route,
  optional, Absent, Absent-optional, set_when-optional,
}
use omni_store.Api.Sources.{
  fetch_my_sources, search_files, fetch_path_permission, fetch_source_quota, list_files,
  download_file_url, source_raw_url, download_archive_call, create_folder, upload_file, delete_file,
  rename_file, move_file, copy_file, fetch_trash, restore_trash, purge_trash, SearchParams,
  ListFilesParams, UploadFileOptions, set_text, set_number, given, given_number, text_or, number_or,
}
use omni_store.Api.SourceRoutes

-- The query of listFiles: the path, and the others as far as they are given.
abbrev pub list_query : ListFilesParams → Params
list_query p =
    (((((codes "path", p.path) ∷ [])
          ++ optional (given_number p.page) (codes "page") (decimal (number_or p.page)))
        ++ optional (given_number p.page_size) (codes "page_size")
            (decimal (number_or p.page_size)))
      ++ optional (given p.sort) (codes "sort") (text_or p.sort))
    ++ optional (given p.order) (codes "order") (text_or p.order)

abbrev pub search_query : SearchParams → Params
search_query p =
    ((((codes "q", p.query) ∷ [])
        ++ optional (given p.source_key) (codes "source_key") (text_or p.source_key))
      ++ optional (given_number p.page) (codes "page") (decimal (number_or p.page)))
    ++ optional (given_number p.page_size) (codes "page_size") (decimal (number_or p.page_size))

list_query_lem :
    (p : ListFilesParams)
    → set_text (codes "order") p.order (
        set_text (codes "sort") p.sort (
          set_number
            (codes "page_size")
            p.page_size
            (set_number (codes "page") p.page ((codes "path", p.path) ∷ []))))
      ≡ list_query p
unfolding text_eq
list_query_lem p =
    let start : Params = (codes "path", p.path) ∷ [] in
    let one = start ++ optional (given_number p.page) (codes "page") (decimal (number_or p.page)) in
    let two =
      one
      ++ optional (given_number p.page_size) (codes "page_size")
          (decimal (number_or p.page_size)) in
    let three = two ++ optional (given p.sort) (codes "sort") (text_or p.sort) in
    let no_page = λ (n : Text) (h : Absent n start) (e : text_eq (codes "page") n ≡ false).
      Absent-optional n start (given_number p.page) (codes "page") (decimal (number_or p.page)) h
        e in
    let no_size = λ (n : Text) (h : Absent n one) (e : text_eq (codes "page_size") n ≡ false).
      Absent-optional n one (given_number p.page_size) (codes "page_size")
        (decimal (number_or p.page_size)) h e in
    set_when-optional (given p.order) (codes "order") (text_or p.order) _ three
      (set_when-optional (given p.sort) (codes "sort") (text_or p.sort) _ two
        (set_when-optional (given_number p.page_size) (codes "page_size")
          (decimal (number_or p.page_size)) _ one
          (set_when-optional (given_number p.page) (codes "page") (decimal (number_or p.page)) start
            start refl refl)
          (no_page (codes "page_size") refl refl))
        (no_size (codes "sort") (no_page (codes "sort") refl refl) refl))
      (Absent-optional (codes "order") two (given p.sort) (codes "sort") (text_or p.sort)
        (no_size (codes "order") (no_page (codes "order") refl refl) refl) refl)

search_query_lem :
    (p : SearchParams)
    → set_number (codes "page_size") p.page_size (
        set_number
          (codes "page")
          p.page
          (set_text (codes "source_key") p.source_key ((codes "q", p.query) ∷ [])))
      ≡ search_query p
unfolding text_eq
search_query_lem p =
    let start : Params = (codes "q", p.query) ∷ [] in
    let one = start ++ optional (given p.source_key) (codes "source_key") (text_or p.source_key) in
    let two = one ++ optional (given_number p.page) (codes "page") (decimal (number_or p.page)) in
    let no_key = λ (n : Text) (h : Absent n start) (e : text_eq (codes "source_key") n ≡ false).
      Absent-optional n start (given p.source_key) (codes "source_key") (text_or p.source_key) h
        e in
    set_when-optional (given_number p.page_size) (codes "page_size")
      (decimal (number_or p.page_size)) _ two
      (set_when-optional (given_number p.page) (codes "page") (decimal (number_or p.page)) _ one
        (set_when-optional (given p.source_key) (codes "source_key") (text_or p.source_key) start
          start refl refl)
        (no_key (codes "page") refl refl))
      (Absent-optional (codes "page_size") one (given_number p.page) (codes "page")
        (decimal (number_or p.page)) (no_key (codes "page_size") refl refl) refl)

list_files_route :
    (key : Text) (p : ListFilesParams)
    → route_of (list_files key p)
      ≡ meant Method.get (word "sources" ∷ arg key ∷ word "files" ∷ []) (list_query p)
unfolding list_files meant path_text
list_files_route key p =
    with_component _ route_call _
      (λ b hb.
        query_route Method.get (codes "sources" ∷ b ∷ codes "files" ∷ []) _ _ (codes "path", p.path)
          (list_query_lem p) (omega arith, (hb, omega arith)))
      key

search_files_route :
    (p : SearchParams)
    → route_of (search_files p) ≡ meant Method.get (word "search" ∷ []) (search_query p)
unfolding search_files meant path_text
search_files_route p =
    query_route Method.get (codes "search" ∷ []) _ _ (codes "q", p.query) (search_query_lem p)
      (omega arith)

fetch_my_sources_route : route_of fetch_my_sources ≡ meant Method.get (word "sources" ∷ []) []
unfolding fetch_my_sources meant path_text
fetch_my_sources_route = path_route Method.get (codes "sources" ∷ []) (omega arith)

-- The routes of what is asked of a source.
abbrev pub ReadRoutes : Text → Text → Bool → SearchParams → ListFilesParams → Type 0
ReadRoutes key path download search list =
    (route_of fetch_my_sources ≡ meant Method.get (word "sources" ∷ []) [])
    × (route_of (search_files search) ≡ meant Method.get (word "search" ∷ []) (search_query search))
    × (route_of (fetch_path_permission key path)
        ≡ meant Method.get (word "sources" ∷ arg key ∷ word "permission" ∷ [])
            ((codes "path", path) ∷ []))
    × (route_of (fetch_source_quota key)
        ≡ meant Method.get (word "sources" ∷ arg key ∷ word "quota" ∷ []) [])
    × (route_of (list_files key list)
        ≡ meant Method.get (word "sources" ∷ arg key ∷ word "files" ∷ []) (list_query list))
    × (SourceRoutes.url_route (download_file_url key path)
        ≡ meant_component Method.get (word "sources" ∷ arg key ∷ word "download" ∷ []) "path" path)
    × (SourceRoutes.url_route (source_raw_url key path download)
        ≡ meant Method.get (word "sources" ∷ arg key ∷ word "raw" ∷ [])
            ((codes "path", path) ∷ optional download (codes "download") (codes "1")))
    × (route_of (fetch_trash key)
        ≡ meant Method.get (word "sources" ∷ arg key ∷ word "trash" ∷ []) [])

-- What is asked of a source is read by a server as the path and the query that it means: the bytes of the
-- key as one segment, and the path and the options that are given as values of the query; with a
-- surrogate that stands alone in a key, or in a path that encodeURIComponent encodes, nothing is sent.
pub read_routes :
    (key path : Text) (download : Bool) (search : SearchParams) (list : ListFilesParams)
    → ReadRoutes key path download search list
read_routes key path download search list = (
  fetch_my_sources_route,
  search_files_route search,
  SourceRoutes.fetch_path_permission_route key path,
  SourceRoutes.fetch_source_quota_route key,
  list_files_route key list,
  SourceRoutes.download_file_url_route key path,
  SourceRoutes.source_raw_url_route key path download,
  SourceRoutes.fetch_trash_route key,
)

-- The routes of what changes a source.
abbrev pub WriteRoutes :
    Text → Text → Text → Text → Text → Text → List Text → File → UploadFileOptions → Type 0
WriteRoutes key path name target_key target trash paths file options =
    ((download_archive_call key paths >>= route_call)
      ≡ meant Method.post (word "sources" ∷ arg key ∷ word "download" ∷ word "archive" ∷ []) [])
    × (route_of (create_folder key path name)
        ≡ meant Method.post (word "sources" ∷ arg key ∷ word "folders" ∷ []) [])
    × (route_of (upload_file key path file options)
        ≡ meant Method.post (word "sources" ∷ arg key ∷ word "upload" ∷ [])
            ((codes "path", path) ∷ optional options.overwrite (codes "overwrite") (codes "true")))
    × (route_of (delete_file key path)
        ≡ meant_component Method.delete (word "sources" ∷ arg key ∷ word "files" ∷ []) "path" path)
    × (route_of (rename_file key path name)
        ≡ meant Method.post (word "sources" ∷ arg key ∷ word "files" ∷ word "rename" ∷ []) [])
    × (route_of (move_file key path target_key target)
        ≡ meant Method.post (word "sources" ∷ arg key ∷ word "files" ∷ word "move" ∷ []) [])
    × (route_of (copy_file key path target_key target)
        ≡ meant Method.post (word "sources" ∷ arg key ∷ word "files" ∷ word "copy" ∷ []) [])
    × (route_of (restore_trash key trash target)
        ≡ meant Method.post
            (word "sources" ∷ arg key ∷ word "trash" ∷ arg trash ∷ word "restore" ∷ []) [])
    × (route_of (purge_trash key trash)
        ≡ meant Method.delete (word "sources" ∷ arg key ∷ word "trash" ∷ arg trash ∷ []) [])

-- So is what changes a source: its method, the path of its own, and for uploads and deletions the path
-- in the query.
pub write_routes :
    (key path name target_key target trash : Text) (paths : List Text) (file : File)
    (options : UploadFileOptions)
    → WriteRoutes key path name target_key target trash paths file options
write_routes key path name target_key target trash paths file options = (
  SourceRoutes.download_archive_call_route key paths,
  SourceRoutes.create_folder_route key path name,
  SourceRoutes.upload_file_route key path file options,
  SourceRoutes.delete_file_route key path,
  SourceRoutes.rename_file_route key path name,
  SourceRoutes.move_file_route key path target_key target,
  SourceRoutes.copy_file_route key path target_key target,
  SourceRoutes.restore_trash_route key trash target,
  SourceRoutes.purge_trash_route key trash,
)
