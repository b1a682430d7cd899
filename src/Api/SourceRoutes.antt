-- ===== src/Api/SourceRoutes.antt =====
-- How the requests of web/src/api/sources.ts are read: each has the method, the path and the query that
-- it means, whatever the keys, paths and names are.
use omni_store.Common.{Bool, Option, List, [], ◌∷◌, ◌≡◌, refl, arith}
use omni_store.Texts.{Text, text_eq}
use omni_store.Files.{File}
use omni_store.Uri.Bytes.{codes}
use omni_store.Uri.Reading.{path_text}
use omni_store.Api.Client.{Method}
use omni_store.Api.Calls.{◌>>=◌}
use omni_store.Api.Routes.{
  Route, route_of, route_call, routed_as, meant, meant_component, word, arg, with_component,
  path_route, query_route, path_component_route, optional, set_when-optional,
}
use omni_store.Uri.Target.{read_target}
use omni_store.Api.Sources.{
  fetch_path_permission, fetch_source_quota, download_file_url, source_raw_url,
  download_archive_call, create_folder, upload_file, delete_file, rename_file, move_file, copy_file,
  fetch_trash, restore_trash, purge_trash, UploadFileOptions,
}

pub fetch_source_quota_route :
    (key : Text)
    → route_of (fetch_source_quota key)
      ≡ meant Method.get (word "sources" ∷ arg key ∷ word "quota" ∷ []) []
unfolding fetch_source_quota meant path_text
fetch_source_quota_route key =
    with_component _ route_call _
      (λ b hb.
        path_route Method.get (codes "sources" ∷ b ∷ codes "quota" ∷ [])
          (omega arith, (hb, omega arith)))
      key

pub create_folder_route :
    (key path name : Text)
    → route_of (create_folder key path name)
      ≡ meant Method.post (word "sources" ∷ arg key ∷ word "folders" ∷ []) []
unfolding create_folder meant path_text
create_folder_route key path name =
    with_component _ route_call _
      (λ b hb.
        path_route Method.post (codes "sources" ∷ b ∷ codes "folders" ∷ [])
          (omega arith, (hb, omega arith)))
      key

pub rename_file_route :
    (key path name : Text)
    → route_of (rename_file key path name)
      ≡ meant Method.post (word "sources" ∷ arg key ∷ word "files" ∷ word "rename" ∷ []) []
unfolding rename_file meant path_text
rename_file_route key path name =
    with_component _ route_call _
      (λ b hb.
        path_route Method.post (codes "sources" ∷ b ∷ codes "files" ∷ codes "rename" ∷ [])
          (omega arith, (hb, omega arith)))
      key

pub move_file_route :
    (key path target_key target : Text)
    → route_of (move_file key path target_key target)
      ≡ meant Method.post (word "sources" ∷ arg key ∷ word "files" ∷ word "move" ∷ []) []
unfolding move_file meant path_text
move_file_route key path target_key target =
    with_component _ route_call _
      (λ b hb.
        path_route Method.post (codes "sources" ∷ b ∷ codes "files" ∷ codes "move" ∷ [])
          (omega arith, (hb, omega arith)))
      key

pub copy_file_route :
    (key path target_key target : Text)
    → route_of (copy_file key path target_key target)
      ≡ meant Method.post (word "sources" ∷ arg key ∷ word "files" ∷ word "copy" ∷ []) []
unfolding copy_file meant path_text
copy_file_route key path target_key target =
    with_component _ route_call _
      (λ b hb.
        path_route Method.post (codes "sources" ∷ b ∷ codes "files" ∷ codes "copy" ∷ [])
          (omega arith, (hb, omega arith)))
      key

pub fetch_trash_route :
    (key : Text)
    → route_of (fetch_trash key)
      ≡ meant Method.get (word "sources" ∷ arg key ∷ word "trash" ∷ []) []
unfolding fetch_trash meant path_text
fetch_trash_route key =
    with_component _ route_call _
      (λ b hb.
        path_route Method.get (codes "sources" ∷ b ∷ codes "trash" ∷ [])
          (omega arith, (hb, omega arith)))
      key

pub download_archive_call_route :
    (key : Text) (paths : List Text)
    → (download_archive_call key paths >>= route_call)
      ≡ meant Method.post (word "sources" ∷ arg key ∷ word "download" ∷ word "archive" ∷ []) []
unfolding download_archive_call meant path_text
download_archive_call_route key paths =
    with_component _ route_call _
      (λ b hb.
        path_route Method.post (codes "sources" ∷ b ∷ codes "download" ∷ codes "archive" ∷ [])
          (omega arith, (hb, omega arith)))
      key

pub restore_trash_route :
    (key trash target : Text)
    → route_of (restore_trash key trash target)
      ≡ meant Method.post
          (word "sources" ∷ arg key ∷ word "trash" ∷ arg trash ∷ word "restore" ∷ [])
          []
unfolding restore_trash meant path_text
restore_trash_route key trash target =
    with_component _ route_call _
      (λ b hb.
        with_component _ route_call _
          (λ t ht.
            path_route Method.post (codes "sources" ∷ b ∷ codes "trash" ∷ t ∷ codes "restore" ∷ [])
              (omega arith, (hb, (omega arith, (ht, omega arith)))))
          trash)
      key

pub purge_trash_route :
    (key trash : Text)
    → route_of (purge_trash key trash)
      ≡ meant Method.delete (word "sources" ∷ arg key ∷ word "trash" ∷ arg trash ∷ []) []
unfolding purge_trash meant path_text
purge_trash_route key trash =
    with_component _ route_call _
      (λ b hb.
        with_component _ route_call _
          (λ t ht.
            path_route Method.delete (codes "sources" ∷ b ∷ codes "trash" ∷ t ∷ [])
              (omega arith, (hb, (omega arith, (ht, tt)))))
          trash)
      key

pub delete_file_route :
    (key path : Text)
    → route_of (delete_file key path)
      ≡ meant_component Method.delete (word "sources" ∷ arg key ∷ word "files" ∷ []) "path" path
unfolding delete_file meant_component path_text
delete_file_route key path =
    with_component _ route_call _
      (λ b hb.
        with_component _ route_call _
          (λ p hp.
            path_component_route Method.delete (codes "sources" ∷ b ∷ codes "files" ∷ []) p
              (omega arith, (hb, omega arith)) hp)
          path)
      key

-- A URL that is not fetched but shown or followed.
abbrev pub url_route : Option Text → Option Route
url_route u = u >>= λ t. read_target t >>= routed_as Method.get

pub download_file_url_route :
    (key path : Text)
    → url_route (download_file_url key path)
      ≡ meant_component Method.get (word "sources" ∷ arg key ∷ word "download" ∷ []) "path" path
unfolding download_file_url meant_component path_text
download_file_url_route key path =
    with_component _ (λ t. read_target t >>= routed_as Method.get) _
      (λ b hb.
        with_component _ (λ t. read_target t >>= routed_as Method.get) _
          (λ p hp.
            path_component_route Method.get (codes "sources" ∷ b ∷ codes "download" ∷ []) p
              (omega arith, (hb, omega arith)) hp)
          path)
      key

pub fetch_path_permission_route :
    (key path : Text)
    → route_of (fetch_path_permission key path)
      ≡ meant Method.get
          (word "sources" ∷ arg key ∷ word "permission" ∷ [])
          ((codes "path", path) ∷ [])
unfolding fetch_path_permission meant path_text
fetch_path_permission_route key path =
    with_component _ route_call _
      (λ b hb.
        query_route Method.get (codes "sources" ∷ b ∷ codes "permission" ∷ [])
          ((codes "path", path) ∷ []) [] (codes "path", path) refl (omega arith, (hb, omega arith)))
      key

pub source_raw_url_route :
    (key path : Text) (download : Bool)
    → url_route (source_raw_url key path download)
      ≡ meant Method.get
          (word "sources" ∷ arg key ∷ word "raw" ∷ [])
          ((codes "path", path) ∷ optional download (codes "download") (codes "1"))
unfolding source_raw_url meant path_text text_eq
source_raw_url_route key path download =
    with_component _ (λ t. read_target t >>= routed_as Method.get) _
      (λ b hb.
        query_route Method.get (codes "sources" ∷ b ∷ codes "raw" ∷ []) _
          (optional download (codes "download") (codes "1")) (codes "path", path)
          (set_when-optional download (codes "download") (codes "1") ((codes "path", path) ∷ [])
            ((codes "path", path) ∷ []) refl refl)
          (omega arith, (hb, omega arith)))
      key

pub upload_file_route :
    (key path : Text) (file : File) (options : UploadFileOptions)
    → route_of (upload_file key path file options)
      ≡ meant Method.post
          (word "sources" ∷ arg key ∷ word "upload" ∷ [])
          ((codes "path", path) ∷ optional options.overwrite (codes "overwrite") (codes "true"))
unfolding upload_file meant path_text text_eq
upload_file_route key path file options =
    with_component _ route_call _
      (λ b hb.
        query_route Method.post (codes "sources" ∷ b ∷ codes "upload" ∷ []) _
          (optional options.overwrite (codes "overwrite") (codes "true")) (codes "path", path)
          (set_when-optional options.overwrite (codes "overwrite") (codes "true")
            ((codes "path", path) ∷ []) ((codes "path", path) ∷ []) refl refl)
          (omega arith, (hb, omega arith)))
      key
