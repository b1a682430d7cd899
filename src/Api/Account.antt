-- ===== src/Api/Account.antt =====
-- web/src/api/auth.ts, favorites.ts, imagebed.ts, preferences.ts, recentFiles.ts, s3.ts and system.ts.
use omni_store.Common.{ℕ, Bool, Option, none, some, [], ◌∷◌, ◌++◌, if◌then◌else◌}
use omni_store.Texts.{Text}
use omni_store.Files.{File}
use omni_store.Uri.Bytes.{codes}
use omni_store.Uri.Escape.{encode_uri_component}
use omni_store.Uri.Decimal.{decimal}
use omni_store.Api.Json.{Json, null, str, obj, member}
use omni_store.Api.Client.{
  Method, form_file, form, Response, FetchCall, Client, Outcome, returned, refused, threw,
  set_csrf_token,
}
use omni_store.Api.Calls.{
  ◌>>=◌, Endpoint, whole_of, list_of, ignoring, plain, with_method, with_body, with_json,
  run_endpoint,
}
use omni_store.ThemeMode.Store.{ThemeMode, mode_text}

-- 'webdav' and 'image-bed'.
pub data TokenType : Type 0 where
  webdav image_bed : TokenType

abbrev pub token_type_text : TokenType → Text
token_type_text TokenType.webdav = codes "webdav"
token_type_text TokenType.image_bed = codes "image-bed"

unfoldable pub fetch_my_quota : Endpoint
fetch_my_quota = whole_of (plain (codes "/api/v1/me/quota"))

unfoldable pub fetch_auth_status : Endpoint
fetch_auth_status = whole_of (plain (codes "/api/v1/auth/status"))

unfoldable pub fetch_setup_status : Endpoint
fetch_setup_status = whole_of (plain (codes "/api/v1/setup/status"))

unfoldable pub create_first_admin : Json → Endpoint
create_first_admin input = whole_of (with_json Method.post (codes "/api/v1/setup/admin") input)

unfoldable pub fetch_my_favorites : Endpoint
fetch_my_favorites = list_of (plain (codes "/api/v1/me/favorites"))

unfoldable pub add_favorite : Text → Text → Endpoint
add_favorite source_key path = whole_of (
    with_json Method.post (codes "/api/v1/me/favorites")
      (obj (("source_key", str source_key) ∷ ("path", str path) ∷ [])))

unfoldable pub remove_favorite : ℕ → Endpoint
unfolding decimal
remove_favorite id =
    ignoring (with_method Method.delete (codes "/api/v1/me/favorites/" ++ (decimal id)))

unfoldable pub fetch_image_bed_status : Endpoint
fetch_image_bed_status = whole_of (plain (codes "/api/v1/image-bed/status"))

unfoldable pub upload_image : File → Endpoint
upload_image file = whole_of (
    with_body Method.post (codes "/api/v1/image-bed/uploads")
      (form (("file", form_file file) ∷ [])))

unfoldable pub fetch_image_history : ℕ → ℕ → Endpoint
unfolding decimal
fetch_image_history page page_size = whole_of (
    plain (
      codes "/api/v1/image-bed/images?page="
      ++ (decimal page ++ (codes "&page_size=" ++ (decimal page_size)))))

unfoldable pub delete_image : Text → Endpoint
unfolding encode_uri_component
delete_image image_id = ignoring (do
  image_id_part ← encode_uri_component image_id
  with_method Method.delete (codes "/api/v1/image-bed/images/" ++ image_id_part))

unfoldable pub fetch_anonymous_status : Endpoint
fetch_anonymous_status = whole_of (plain (codes "/api/v1/image-bed/anonymous-status"))

unfoldable pub upload_anonymous_image : File → Endpoint
upload_anonymous_image file = whole_of (
    with_body Method.post (codes "/api/v1/image-bed/anonymous-upload")
      (form (("file", form_file file) ∷ [])))

unfoldable pub fetch_token_status : Endpoint
fetch_token_status = whole_of (plain (codes "/api/v1/me/tokens"))

unfoldable pub reset_token : TokenType → Endpoint
reset_token type = whole_of (
    with_method Method.post
      (codes "/api/v1/me/tokens/" ++ (token_type_text type ++ (codes "/reset"))))

unfoldable pub fetch_image_bed_tokens : Endpoint
fetch_image_bed_tokens = list_of (plain (codes "/api/v1/me/tokens/image-bed"))

unfoldable pub create_image_bed_token : Text → Endpoint
create_image_bed_token label =
    whole_of (
      with_json Method.post (codes "/api/v1/me/tokens/image-bed") (obj (("label", str label) ∷ [])))

unfoldable pub delete_image_bed_token : Text → Endpoint
unfolding encode_uri_component
delete_image_bed_token token_id = ignoring (do
  token_id_part ← encode_uri_component token_id
  with_method Method.delete (codes "/api/v1/me/tokens/image-bed/" ++ token_id_part))

unfoldable pub fetch_preferences : Endpoint
fetch_preferences = whole_of (plain (codes "/api/v1/me/preferences"))

unfoldable pub update_preferences : ThemeMode → Endpoint
update_preferences theme = whole_of (
    with_json Method.patch (codes "/api/v1/me/preferences")
      (obj (("theme", str (codes (mode_text theme))) ∷ [])))

unfoldable pub fetch_recent_files : ℕ → Endpoint
unfolding decimal
fetch_recent_files limit =
    list_of (plain (codes "/api/v1/me/recent-files?limit=" ++ (decimal limit)))

unfoldable pub fetch_s3_credentials : Endpoint
fetch_s3_credentials = list_of (plain (codes "/api/v1/me/s3-credentials"))

unfoldable pub create_s3_credential : Text → Endpoint
create_s3_credential name =
    whole_of
      (with_json Method.post (codes "/api/v1/me/s3-credentials") (obj (("name", str name) ∷ [])))

unfoldable pub set_s3_credential_disabled : Text → Bool → Endpoint
unfolding encode_uri_component
set_s3_credential_disabled access_key_id disabled = ignoring (do
  access_key_id_part ← encode_uri_component access_key_id
  with_method Method.post (
      codes "/api/v1/me/s3-credentials/"
      ++ (access_key_id_part
          ++ (codes "/" ++ ((if disabled then codes "disable" else codes "enable"))))))

unfoldable pub delete_s3_credential : Text → Endpoint
unfolding encode_uri_component
delete_s3_credential access_key_id = ignoring (do
  access_key_id_part ← encode_uri_component access_key_id
  with_method Method.delete (codes "/api/v1/me/s3-credentials/" ++ access_key_id_part))

unfoldable pub fetch_system_status : Endpoint
fetch_system_status = whole_of (plain (codes "/api/v1/system/status"))

-- An AuthPayload: its token is set, and its user is the value. Members of undefined and null cannot be
-- read.
abbrev pub after_auth :
    {W : Type 0} → Client W × Outcome (Option Json) → Client W × Outcome (Option Json)
after_auth (c, returned none) = (c, threw)
after_auth (c, returned (some null)) = (c, threw)
after_auth (c, returned (some v)) =
    (set_csrf_token (member "csrf_token" v) c, returned (member "user" v))
after_auth (c, refused e) = (c, refused e)
after_auth (c, threw) = (c, threw)

abbrev pub after_logout :
    {W : Type 0} → Client W × Outcome (Option Json) → Client W × Outcome (Option Json)
after_logout (c, returned v) = (set_csrf_token (some (str [])) c, returned none)
after_logout (c, o) = (c, o)

abbrev pub logout_call : Endpoint
logout_call = ignoring (with_method Method.post (codes "/api/v1/auth/logout"))

module _ {W : Type 0} (fetch : FetchCall → W → W × Option Response) where
  unfoldable pub fetch_me : Client W → Client W × Outcome (Option Json)
  unfolding run_endpoint set_csrf_token
  fetch_me c = after_auth (run_endpoint fetch (whole_of (plain (codes "/api/v1/auth/me"))) c)

  unfoldable pub login : Text → Text → Client W → Client W × Outcome (Option Json)
  unfolding run_endpoint set_csrf_token
  login username password c = after_auth (
      run_endpoint fetch
        (whole_of (
          with_json Method.post (codes "/api/v1/auth/login")
            (obj (("username", str username) ∷ ("password", str password) ∷ []))))
        c)

  unfoldable pub logout : Client W → Client W × Outcome (Option Json)
  unfolding run_endpoint set_csrf_token
  logout c = after_logout (run_endpoint fetch logout_call c)
