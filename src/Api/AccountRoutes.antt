-- ===== src/Api/AccountRoutes.antt =====
-- How the requests about the own account and the image bed are read.
use Prim.Native.String.{String}
use omni_store.Common.{ℕ, Bool, true, false, [], ◌∷◌, ◌++◌, ◌≡◌, arith}
use omni_store.Texts.{Text}
use omni_store.Files.{File}
use omni_store.ThemeMode.Store.{ThemeMode}
use omni_store.Uri.Bytes.{codes}
use omni_store.Uri.Reading.{path_text}
use omni_store.Api.Json.{Json}
use omni_store.Api.Client.{Method}
use omni_store.Api.Calls.{with_method}
use omni_store.Api.Routes.{
  route_of, route_call, meant, meant_from, switch_word, word, arg, num, with_component, with_number,
  path_route,
}
use omni_store.Api.Account.{
  fetch_my_quota, fetch_auth_status, fetch_setup_status, create_first_admin, fetch_my_favorites,
  add_favorite, remove_favorite, fetch_image_bed_status, upload_image, delete_image,
  fetch_anonymous_status, upload_anonymous_image, fetch_token_status, reset_token,
  fetch_image_bed_tokens, create_image_bed_token, delete_image_bed_token, fetch_preferences,
  update_preferences, fetch_s3_credentials, create_s3_credential, set_s3_credential_disabled,
  delete_s3_credential, fetch_system_status, TokenType,
}

abbrev pub token_word : TokenType → String
token_word TokenType.webdav = "webdav"
token_word TokenType.image_bed = "image-bed"

reset_token_route :
    (type : TokenType)
    → route_of (reset_token type)
      ≡ meant Method.post
          (word "me" ∷ word "tokens" ∷ word (token_word type) ∷ word "reset" ∷ [])
          []
unfolding reset_token meant path_text
reset_token_route TokenType.webdav =
    path_route Method.post (codes "me" ∷ codes "tokens" ∷ codes "webdav" ∷ codes "reset" ∷ [])
      (omega arith)
reset_token_route TokenType.image_bed =
    path_route Method.post (codes "me" ∷ codes "tokens" ∷ codes "image-bed" ∷ codes "reset" ∷ [])
      (omega arith)

set_s3_credential_disabled_route :
    (access_key_id : Text) (disabled : Bool)
    → route_of (set_s3_credential_disabled access_key_id disabled)
      ≡ meant Method.post
          (word "me" ∷ word "s3-credentials" ∷ arg access_key_id ∷ word (switch_word disabled) ∷ [])
          []
unfolding set_s3_credential_disabled meant path_text
set_s3_credential_disabled_route access_key_id true =
    with_component _ route_call _
      (λ access_key_id_b access_key_id_h.
        path_route Method.post
          (codes "me" ∷ codes "s3-credentials" ∷ access_key_id_b ∷ codes "disable" ∷ [])
          ((omega arith, (omega arith, (access_key_id_h, omega arith)))))
      access_key_id
set_s3_credential_disabled_route access_key_id false =
    with_component _ route_call _
      (λ access_key_id_b access_key_id_h.
        path_route Method.post
          (codes "me" ∷ codes "s3-credentials" ∷ access_key_id_b ∷ codes "enable" ∷ [])
          ((omega arith, (omega arith, (access_key_id_h, omega arith)))))
      access_key_id

-- The routes of the own account, the image bed and the system.
abbrev pub AccountRoutesHold :
    Json
    → Text
    → Text
    → Text
    → Text
    → Text
    → Text
    → Text
    → ℕ
    → File
    → TokenType
    → ThemeMode
    → Bool
    → Type 0
AccountRoutesHold input source_key path image_id label token_id name access_key_id id file type
      theme disabled =
    (route_of fetch_my_quota ≡ meant Method.get (word "me" ∷ word "quota" ∷ []) [])
    × (route_of fetch_auth_status ≡ meant Method.get (word "auth" ∷ word "status" ∷ []) [])
    × (route_of fetch_setup_status ≡ meant Method.get (word "setup" ∷ word "status" ∷ []) [])
    × (route_of (create_first_admin input)
        ≡ meant Method.post (word "setup" ∷ word "admin" ∷ []) [])
    × (route_of fetch_my_favorites ≡ meant Method.get (word "me" ∷ word "favorites" ∷ []) [])
    × (route_of (add_favorite source_key path)
        ≡ meant Method.post (word "me" ∷ word "favorites" ∷ []) [])
    × (route_of (remove_favorite id)
        ≡ meant Method.delete (word "me" ∷ word "favorites" ∷ num id ∷ []) [])
    × (route_of fetch_image_bed_status
        ≡ meant Method.get (word "image-bed" ∷ word "status" ∷ []) [])
    × (route_of (upload_image file) ≡ meant Method.post (word "image-bed" ∷ word "uploads" ∷ []) [])
    × (route_of (delete_image image_id)
        ≡ meant Method.delete (word "image-bed" ∷ word "images" ∷ arg image_id ∷ []) [])
    × (route_of fetch_anonymous_status
        ≡ meant Method.get (word "image-bed" ∷ word "anonymous-status" ∷ []) [])
    × (route_of (upload_anonymous_image file)
        ≡ meant Method.post (word "image-bed" ∷ word "anonymous-upload" ∷ []) [])
    × (route_of fetch_token_status ≡ meant Method.get (word "me" ∷ word "tokens" ∷ []) [])
    × (route_of (reset_token type)
        ≡ meant Method.post (word "me" ∷ word "tokens" ∷ word (token_word type) ∷ word "reset" ∷ [])
            [])
    × (route_of fetch_image_bed_tokens
        ≡ meant Method.get (word "me" ∷ word "tokens" ∷ word "image-bed" ∷ []) [])
    × (route_of (create_image_bed_token label)
        ≡ meant Method.post (word "me" ∷ word "tokens" ∷ word "image-bed" ∷ []) [])
    × (route_of (delete_image_bed_token token_id)
        ≡ meant Method.delete (word "me" ∷ word "tokens" ∷ word "image-bed" ∷ arg token_id ∷ []) [])
    × (route_of fetch_preferences ≡ meant Method.get (word "me" ∷ word "preferences" ∷ []) [])
    × (route_of (update_preferences theme)
        ≡ meant Method.patch (word "me" ∷ word "preferences" ∷ []) [])
    × (route_of fetch_s3_credentials ≡ meant Method.get (word "me" ∷ word "s3-credentials" ∷ []) [])
    × (route_of (create_s3_credential name)
        ≡ meant Method.post (word "me" ∷ word "s3-credentials" ∷ []) [])
    × (route_of (set_s3_credential_disabled access_key_id disabled)
        ≡ meant Method.post
            (word "me"
              ∷ word "s3-credentials"
              ∷ arg access_key_id
              ∷ word (switch_word disabled)
              ∷ [])
            [])
    × (route_of (delete_s3_credential access_key_id)
        ≡ meant Method.delete (word "me" ∷ word "s3-credentials" ∷ arg access_key_id ∷ []) [])
    × (route_of fetch_system_status ≡ meant Method.get (word "system" ∷ word "status" ∷ []) [])

-- Each request about the own account, the image bed and the system, but for the login, the logout, the own
-- user and the lists of images and recent files, is read by a server with its method and its path:
-- identifiers by their bytes, favourites by the digits of their number.
pub account_routes :
    (input : Json) (source_key path image_id label token_id name access_key_id : Text) (id : ℕ)
    (file : File) (type : TokenType) (theme : ThemeMode) (disabled : Bool)
    → AccountRoutesHold input source_key path image_id label token_id name access_key_id id file
        type theme disabled
unfolding meant path_text fetch_my_quota fetch_auth_status fetch_setup_status create_first_admin
    fetch_my_favorites add_favorite remove_favorite fetch_image_bed_status upload_image delete_image
    fetch_anonymous_status upload_anonymous_image fetch_token_status reset_token
    fetch_image_bed_tokens create_image_bed_token delete_image_bed_token fetch_preferences
    update_preferences fetch_s3_credentials create_s3_credential set_s3_credential_disabled
    delete_s3_credential fetch_system_status
account_routes input source_key path image_id label token_id name access_key_id id file type theme
      disabled =
    (
      path_route Method.get (codes "me" ∷ codes "quota" ∷ []) (omega arith),
      path_route Method.get (codes "auth" ∷ codes "status" ∷ []) (omega arith),
      path_route Method.get (codes "setup" ∷ codes "status" ∷ []) (omega arith),
      path_route Method.post (codes "setup" ∷ codes "admin" ∷ []) (omega arith),
      path_route Method.get (codes "me" ∷ codes "favorites" ∷ []) (omega arith),
      path_route Method.post (codes "me" ∷ codes "favorites" ∷ []) (omega arith),
      with_number (λ t. with_method Method.delete (codes "/api/v1/me/favorites/" ++ (t))) route_call
          (λ b. meant_from Method.delete (codes "me" ∷ codes "favorites" ∷ b ∷ []))
          (λ id_b id_h.
            path_route Method.delete (codes "me" ∷ codes "favorites" ∷ id_b ∷ [])
              ((omega arith, (omega arith, (id_h, tt)))))
          id,
      path_route Method.get (codes "image-bed" ∷ codes "status" ∷ []) (omega arith),
      path_route Method.post (codes "image-bed" ∷ codes "uploads" ∷ []) (omega arith),
      with_component _ route_call _
          (λ image_id_b image_id_h.
            path_route Method.delete (codes "image-bed" ∷ codes "images" ∷ image_id_b ∷ [])
              ((omega arith, (omega arith, (image_id_h, tt)))))
          image_id,
      path_route Method.get (codes "image-bed" ∷ codes "anonymous-status" ∷ []) (omega arith),
      path_route Method.post (codes "image-bed" ∷ codes "anonymous-upload" ∷ []) (omega arith),
      path_route Method.get (codes "me" ∷ codes "tokens" ∷ []) (omega arith),
      reset_token_route type,
      path_route Method.get (codes "me" ∷ codes "tokens" ∷ codes "image-bed" ∷ []) (omega arith),
      path_route Method.post (codes "me" ∷ codes "tokens" ∷ codes "image-bed" ∷ []) (omega arith),
      with_component _ route_call _
          (λ token_id_b token_id_h.
            path_route Method.delete
              (codes "me" ∷ codes "tokens" ∷ codes "image-bed" ∷ token_id_b ∷ [])
              ((omega arith, (omega arith, (omega arith, (token_id_h, tt))))))
          token_id,
      path_route Method.get (codes "me" ∷ codes "preferences" ∷ []) (omega arith),
      path_route Method.patch (codes "me" ∷ codes "preferences" ∷ []) (omega arith),
      path_route Method.get (codes "me" ∷ codes "s3-credentials" ∷ []) (omega arith),
      path_route Method.post (codes "me" ∷ codes "s3-credentials" ∷ []) (omega arith),
      set_s3_credential_disabled_route access_key_id disabled,
      with_component _ route_call _
          (λ access_key_id_b access_key_id_h.
            path_route Method.delete (codes "me" ∷ codes "s3-credentials" ∷ access_key_id_b ∷ [])
              ((omega arith, (omega arith, (access_key_id_h, tt)))))
          access_key_id,
      path_route Method.get (codes "system" ∷ codes "status" ∷ []) (omega arith),
    )
