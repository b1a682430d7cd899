-- ===== src/Api/AdminRoutes.antt =====
-- How the other requests of web/src/api/admin.ts are read.
use Prim.Native.String.{String}
use omni_store.Common.{List, ℕ, Bool, true, false, [], ◌∷◌, ◌++◌, ◌≡◌, arith}
use omni_store.Texts.{Text}
use omni_store.Uri.Bytes.{codes}
use omni_store.Uri.Reading.{path_text}
use omni_store.Api.AdminSourceRoutes.{AdminSourceRoutesHold, admin_source_routes}
use omni_store.Api.Json.{Json, obj, number}
use omni_store.Api.Client.{Method}
use omni_store.Api.Calls.{with_method, with_json}
use omni_store.Api.Routes.{
  route_of, route_call, meant, meant_from, switch_word, word, arg, num, with_component, with_number,
  path_route,
}
use omni_store.Api.Admin.{
  admin_list_capabilities, admin_update_capability, admin_list_users, admin_create_user,
  admin_set_user_quota, admin_set_user_disabled, admin_revoke_user_credentials, admin_delete_user,
  admin_list_sources, admin_create_source, admin_preflight_source, admin_list_policies,
  admin_create_policy, admin_update_policy, admin_delete_policy, admin_get_anonymous_settings,
  admin_set_anonymous_settings, run_integrity_check, run_operations_cleanup,
  admin_get_image_bed_retention, admin_set_image_bed_retention, fetch_admin_overview,
  update_profile, change_password, admin_get_branding, admin_set_branding, SiteCapability,
}

abbrev pub capability_word : SiteCapability → String
capability_word SiteCapability.public_drive = "public_drive"
capability_word SiteCapability.image_bed = "image_bed"

admin_update_capability_route :
    (capability : SiteCapability) (input : Json)
    → route_of (admin_update_capability capability input)
      ≡ meant Method.put
          (word "admin" ∷ word "capabilities" ∷ word (capability_word capability) ∷ [])
          []
unfolding admin_update_capability meant path_text
admin_update_capability_route SiteCapability.public_drive input =
    path_route Method.put (codes "admin" ∷ codes "capabilities" ∷ codes "public_drive" ∷ [])
      (omega arith)
admin_update_capability_route SiteCapability.image_bed input =
    path_route Method.put (codes "admin" ∷ codes "capabilities" ∷ codes "image_bed" ∷ [])
      (omega arith)

admin_set_user_disabled_route :
    (id : ℕ) (disabled : Bool)
    → route_of (admin_set_user_disabled id disabled)
      ≡ meant Method.post
          (word "admin" ∷ word "users" ∷ num id ∷ word (switch_word disabled) ∷ [])
          []
unfolding admin_set_user_disabled meant path_text
admin_set_user_disabled_route id true =
    with_number
      (λ t.
        with_method Method.post
          (codes "/api/v1/admin/users/" ++ (t ++ (codes "/" ++ (codes "disable")))))
      route_call
      (λ b. meant_from Method.post (codes "admin" ∷ codes "users" ∷ b ∷ codes "disable" ∷ []))
      (λ id_b id_h.
        path_route Method.post (codes "admin" ∷ codes "users" ∷ id_b ∷ codes "disable" ∷ [])
          ((omega arith, (omega arith, (id_h, omega arith)))))
      id
admin_set_user_disabled_route id false =
    with_number
      (λ t.
        with_method Method.post
          (codes "/api/v1/admin/users/" ++ (t ++ (codes "/" ++ (codes "enable")))))
      route_call
      (λ b. meant_from Method.post (codes "admin" ∷ codes "users" ∷ b ∷ codes "enable" ∷ []))
      (λ id_b id_h.
        path_route Method.post (codes "admin" ∷ codes "users" ∷ id_b ∷ codes "enable" ∷ [])
          ((omega arith, (omega arith, (id_h, omega arith)))))
      id

-- The routes of the rest of the administration.
abbrev pub AdminRoutesHold :
    SiteCapability → Json → ℕ → ℕ → Bool → Text → Text → Text → Text → Text → Type 0
AdminRoutesHold capability input id quota_bytes disabled policy_key display_name old_password
      new_password instance_name =
    (route_of admin_list_capabilities
      ≡ meant Method.get (word "admin" ∷ word "capabilities" ∷ []) [])
    × (route_of (admin_update_capability capability input)
        ≡ meant Method.put
            (word "admin" ∷ word "capabilities" ∷ word (capability_word capability) ∷ []) [])
    × (route_of admin_list_users ≡ meant Method.get (word "admin" ∷ word "users" ∷ []) [])
    × (route_of (admin_create_user input) ≡ meant Method.post (word "admin" ∷ word "users" ∷ []) [])
    × (route_of (admin_set_user_quota id quota_bytes)
        ≡ meant Method.patch (word "admin" ∷ word "users" ∷ num id ∷ word "quota" ∷ []) [])
    × (route_of (admin_set_user_disabled id disabled)
        ≡ meant Method.post
            (word "admin" ∷ word "users" ∷ num id ∷ word (switch_word disabled) ∷ []) [])
    × (route_of (admin_revoke_user_credentials id)
        ≡ meant Method.post (word "admin" ∷ word "users" ∷ num id ∷ word "revoke-credentials" ∷ [])
            [])
    × (route_of (admin_delete_user id)
        ≡ meant Method.delete (word "admin" ∷ word "users" ∷ num id ∷ []) [])
    × (route_of admin_list_sources ≡ meant Method.get (word "admin" ∷ word "sources" ∷ []) [])
    × (route_of (admin_create_source input)
        ≡ meant Method.post (word "admin" ∷ word "sources" ∷ []) [])
    × (route_of (admin_preflight_source input)
        ≡ meant Method.post (word "admin" ∷ word "sources" ∷ word "preflight" ∷ []) [])
    × (route_of admin_list_policies ≡ meant Method.get (word "admin" ∷ word "policies" ∷ []) [])
    × (route_of (admin_create_policy input)
        ≡ meant Method.post (word "admin" ∷ word "policies" ∷ []) [])
    × (route_of (admin_update_policy policy_key input)
        ≡ meant Method.put (word "admin" ∷ word "policies" ∷ arg policy_key ∷ []) [])
    × (route_of (admin_delete_policy policy_key)
        ≡ meant Method.delete (word "admin" ∷ word "policies" ∷ arg policy_key ∷ []) [])
    × (route_of admin_get_anonymous_settings
        ≡ meant Method.get (word "admin" ∷ word "image-bed" ∷ word "anonymous-settings" ∷ []) [])
    × (route_of (admin_set_anonymous_settings input)
        ≡ meant Method.put (word "admin" ∷ word "image-bed" ∷ word "anonymous-settings" ∷ []) [])
    × (route_of run_integrity_check
        ≡ meant Method.post (word "admin" ∷ word "operations" ∷ word "integrity-check" ∷ []) [])
    × (route_of run_operations_cleanup
        ≡ meant Method.post (word "admin" ∷ word "operations" ∷ word "cleanup" ∷ []) [])
    × (route_of admin_get_image_bed_retention
        ≡ meant Method.get (word "admin" ∷ word "image-bed" ∷ word "retention" ∷ []) [])
    × (route_of (admin_set_image_bed_retention input)
        ≡ meant Method.put (word "admin" ∷ word "image-bed" ∷ word "retention" ∷ []) [])
    × (route_of fetch_admin_overview ≡ meant Method.get (word "admin" ∷ word "overview" ∷ []) [])
    × (route_of (update_profile display_name)
        ≡ meant Method.patch (word "me" ∷ word "profile" ∷ []) [])
    × (route_of (change_password old_password new_password)
        ≡ meant Method.post (word "me" ∷ word "password" ∷ []) [])
    × (route_of admin_get_branding ≡ meant Method.get (word "admin" ∷ word "branding" ∷ []) [])
    × (route_of (admin_set_branding instance_name)
        ≡ meant Method.put (word "admin" ∷ word "branding" ∷ []) [])

other_admin_routes :
    (capability : SiteCapability) (input : Json) (id quota_bytes : ℕ) (disabled : Bool)
    (policy_key display_name old_password new_password instance_name : Text)
    → AdminRoutesHold capability input id quota_bytes disabled policy_key display_name old_password
        new_password instance_name
unfolding meant path_text admin_list_capabilities admin_update_capability admin_list_users
    admin_create_user admin_set_user_quota admin_set_user_disabled admin_revoke_user_credentials
    admin_delete_user admin_list_sources admin_create_source admin_preflight_source
    admin_list_policies admin_create_policy admin_update_policy admin_delete_policy
    admin_get_anonymous_settings admin_set_anonymous_settings run_integrity_check
    run_operations_cleanup admin_get_image_bed_retention admin_set_image_bed_retention
    fetch_admin_overview update_profile change_password admin_get_branding admin_set_branding
other_admin_routes capability input id quota_bytes disabled policy_key display_name old_password
      new_password instance_name =
    (
      path_route Method.get (codes "admin" ∷ codes "capabilities" ∷ []) (omega arith),
      admin_update_capability_route capability input,
      path_route Method.get (codes "admin" ∷ codes "users" ∷ []) (omega arith),
      path_route Method.post (codes "admin" ∷ codes "users" ∷ []) (omega arith),
      with_number
          (λ t.
            with_json Method.patch (codes "/api/v1/admin/users/" ++ (t ++ (codes "/quota")))
              (obj (("quota_bytes", number quota_bytes) ∷ [])))
          route_call
          (λ b. meant_from Method.patch (codes "admin" ∷ codes "users" ∷ b ∷ codes "quota" ∷ []))
          (λ id_b id_h.
            path_route Method.patch (codes "admin" ∷ codes "users" ∷ id_b ∷ codes "quota" ∷ [])
              ((omega arith, (omega arith, (id_h, omega arith)))))
          id,
      admin_set_user_disabled_route id disabled,
      with_number
          (λ t.
            with_method Method.post
              (codes "/api/v1/admin/users/" ++ (t ++ (codes "/revoke-credentials"))))
          route_call
          (λ b.
            meant_from Method.post
              (codes "admin" ∷ codes "users" ∷ b ∷ codes "revoke-credentials" ∷ []))
          (λ id_b id_h.
            path_route Method.post
              (codes "admin" ∷ codes "users" ∷ id_b ∷ codes "revoke-credentials" ∷ [])
              ((omega arith, (omega arith, (id_h, omega arith)))))
          id,
      with_number (λ t. with_method Method.delete (codes "/api/v1/admin/users/" ++ (t))) route_call
          (λ b. meant_from Method.delete (codes "admin" ∷ codes "users" ∷ b ∷ []))
          (λ id_b id_h.
            path_route Method.delete (codes "admin" ∷ codes "users" ∷ id_b ∷ [])
              ((omega arith, (omega arith, (id_h, tt)))))
          id,
      path_route Method.get (codes "admin" ∷ codes "sources" ∷ []) (omega arith),
      path_route Method.post (codes "admin" ∷ codes "sources" ∷ []) (omega arith),
      path_route Method.post (codes "admin" ∷ codes "sources" ∷ codes "preflight" ∷ [])
          (omega arith),
      path_route Method.get (codes "admin" ∷ codes "policies" ∷ []) (omega arith),
      path_route Method.post (codes "admin" ∷ codes "policies" ∷ []) (omega arith),
      with_component _ route_call _
          (λ policy_key_b policy_key_h.
            path_route Method.put (codes "admin" ∷ codes "policies" ∷ policy_key_b ∷ [])
              ((omega arith, (omega arith, (policy_key_h, tt)))))
          policy_key,
      with_component _ route_call _
          (λ policy_key_b policy_key_h.
            path_route Method.delete (codes "admin" ∷ codes "policies" ∷ policy_key_b ∷ [])
              ((omega arith, (omega arith, (policy_key_h, tt)))))
          policy_key,
      path_route Method.get (codes "admin" ∷ codes "image-bed" ∷ codes "anonymous-settings" ∷ [])
          (omega arith),
      path_route Method.put (codes "admin" ∷ codes "image-bed" ∷ codes "anonymous-settings" ∷ [])
          (omega arith),
      path_route Method.post (codes "admin" ∷ codes "operations" ∷ codes "integrity-check" ∷ [])
          (omega arith),
      path_route Method.post (codes "admin" ∷ codes "operations" ∷ codes "cleanup" ∷ [])
          (omega arith),
      path_route Method.get (codes "admin" ∷ codes "image-bed" ∷ codes "retention" ∷ [])
          (omega arith),
      path_route Method.put (codes "admin" ∷ codes "image-bed" ∷ codes "retention" ∷ [])
          (omega arith),
      path_route Method.get (codes "admin" ∷ codes "overview" ∷ []) (omega arith),
      path_route Method.patch (codes "me" ∷ codes "profile" ∷ []) (omega arith),
      path_route Method.post (codes "me" ∷ codes "password" ∷ []) (omega arith),
      path_route Method.get (codes "admin" ∷ codes "branding" ∷ []) (omega arith),
      path_route Method.put (codes "admin" ∷ codes "branding" ∷ []) (omega arith),
    )

-- Each request of the administration, but for the audit logs and the export, is read by a server with its
-- method and its path: sources and policies by the bytes of their key in one segment, users by the digits
-- of their number, and the words for enabling and disabling; with a surrogate that stands alone in the
-- key of a source or a policy nothing is sent.
pub admin_routes :
    (source_key : Text) (patterns : List Text) (revision : ℕ) (capability : SiteCapability)
    (input : Json) (id quota_bytes : ℕ) (disabled : Bool)
    (policy_key display_name old_password new_password instance_name : Text)
    → AdminSourceRoutesHold source_key input disabled patterns revision
      × AdminRoutesHold capability input id quota_bytes disabled policy_key display_name
          old_password new_password instance_name
admin_routes source_key patterns revision capability input id quota_bytes disabled policy_key
      display_name old_password new_password instance_name =
    (
      admin_source_routes source_key input disabled patterns revision,
      other_admin_routes capability input id quota_bytes disabled policy_key display_name
          old_password new_password instance_name,
    )
