-- ===== src/Api/Admin.antt =====
-- web/src/api/admin.ts: the requests of the administration pages and of the own account. An input that
-- the code passes on whole is a JSON value.
use omni_store.Common.{ℕ, Bool, Option, none, some, List, [], ◌∷◌, ◌++◌, if◌then◌else◌}
use omni_store.Texts.{Text}
use omni_store.Uri.Bytes.{codes}
use omni_store.Uri.Escape.{encode_uri_component}
use omni_store.Uri.Query.{set_param, params_text}
use omni_store.Uri.Decimal.{decimal}
use omni_store.Api.Json.{Json, null, number, str, array, obj, items, texts_of, member, or_else}
use omni_store.Api.Client.{Method, Response, FetchCall, Client, Outcome, returned, refused, threw}
use omni_store.Api.Calls.{
  ◌>>=◌, Endpoint, whole_of, list_of, ignoring, plain, with_method, with_json, run_endpoint,
}
use omni_store.Api.Sources.{set_text}

-- 'public_drive' and 'image_bed'.
pub data SiteCapability : Type 0 where
  public_drive image_bed : SiteCapability

abbrev pub capability_text : SiteCapability → Text
capability_text SiteCapability.public_drive = codes "public_drive"
capability_text SiteCapability.image_bed = codes "image_bed"

unfoldable pub admin_list_capabilities : Endpoint
admin_list_capabilities = list_of (plain (codes "/api/v1/admin/capabilities"))

unfoldable pub admin_update_capability : SiteCapability → Json → Endpoint
admin_update_capability capability input = whole_of (
    with_json Method.put (codes "/api/v1/admin/capabilities/" ++ (capability_text capability))
      input)

unfoldable pub admin_list_users : Endpoint
admin_list_users = list_of (plain (codes "/api/v1/admin/users"))

unfoldable pub admin_create_user : Json → Endpoint
admin_create_user input = whole_of (with_json Method.post (codes "/api/v1/admin/users") input)

unfoldable pub admin_set_user_quota : ℕ → ℕ → Endpoint
unfolding decimal
admin_set_user_quota id quota_bytes = whole_of (
    with_json Method.patch (codes "/api/v1/admin/users/" ++ (decimal id ++ (codes "/quota")))
      (obj (("quota_bytes", number quota_bytes) ∷ [])))

unfoldable pub admin_set_user_disabled : ℕ → Bool → Endpoint
unfolding decimal
admin_set_user_disabled id disabled = ignoring (
    with_method Method.post (
      codes "/api/v1/admin/users/"
      ++ (decimal id ++ (codes "/" ++ ((if disabled then codes "disable" else codes "enable"))))))

unfoldable pub admin_revoke_user_credentials : ℕ → Endpoint
unfolding decimal
admin_revoke_user_credentials id = whole_of (
    with_method Method.post
      (codes "/api/v1/admin/users/" ++ (decimal id ++ (codes "/revoke-credentials"))))

unfoldable pub admin_delete_user : ℕ → Endpoint
unfolding decimal
admin_delete_user id =
    ignoring (with_method Method.delete (codes "/api/v1/admin/users/" ++ (decimal id)))

unfoldable pub admin_list_sources : Endpoint
admin_list_sources = list_of (plain (codes "/api/v1/admin/sources"))

unfoldable pub admin_create_source : Json → Endpoint
admin_create_source input = whole_of (with_json Method.post (codes "/api/v1/admin/sources") input)

unfoldable pub admin_preflight_source : Json → Endpoint
admin_preflight_source input =
    whole_of (with_json Method.post (codes "/api/v1/admin/sources/preflight") input)

unfoldable pub admin_get_source : Text → Endpoint
unfolding encode_uri_component
admin_get_source source_key = whole_of (do
  source_key_part ← encode_uri_component source_key
  plain (codes "/api/v1/admin/sources/" ++ source_key_part))

unfoldable pub admin_reconcile_source : Text → Endpoint
unfolding encode_uri_component
admin_reconcile_source source_key = whole_of (do
  source_key_part ← encode_uri_component source_key
  with_method Method.post
      (codes "/api/v1/admin/sources/" ++ (source_key_part ++ (codes "/reconcile"))))

unfoldable pub admin_update_source : Text → Json → Endpoint
unfolding encode_uri_component
admin_update_source source_key input = whole_of (do
  source_key_part ← encode_uri_component source_key
  with_json Method.patch (codes "/api/v1/admin/sources/" ++ source_key_part) input)

unfoldable pub admin_set_source_disabled : Text → Bool → Endpoint
unfolding encode_uri_component
admin_set_source_disabled source_key disabled = ignoring (do
  source_key_part ← encode_uri_component source_key
  with_method Method.post (
      codes "/api/v1/admin/sources/"
      ++ (source_key_part
          ++ (codes "/" ++ ((if disabled then codes "disable" else codes "enable"))))))

unfoldable pub admin_delete_source : Text → Endpoint
unfolding encode_uri_component
admin_delete_source source_key = ignoring (do
  source_key_part ← encode_uri_component source_key
  with_method Method.delete (codes "/api/v1/admin/sources/" ++ source_key_part))

unfoldable pub admin_set_exclude_patterns : Text → List Text → Endpoint
unfolding encode_uri_component
admin_set_exclude_patterns source_key patterns = ignoring (do
  source_key_part ← encode_uri_component source_key
  with_json Method.put
      (codes "/api/v1/admin/sources/" ++ (source_key_part ++ (codes "/exclude-patterns")))
      (obj (("patterns", array (items (texts_of patterns))) ∷ [])))

unfoldable pub admin_list_policies : Endpoint
admin_list_policies = list_of (plain (codes "/api/v1/admin/policies"))

unfoldable pub admin_create_policy : Json → Endpoint
admin_create_policy input = whole_of (with_json Method.post (codes "/api/v1/admin/policies") input)

unfoldable pub admin_update_policy : Text → Json → Endpoint
unfolding encode_uri_component
admin_update_policy policy_key input = whole_of (do
  policy_key_part ← encode_uri_component policy_key
  with_json Method.put (codes "/api/v1/admin/policies/" ++ policy_key_part) input)

unfoldable pub admin_delete_policy : Text → Endpoint
unfolding encode_uri_component
admin_delete_policy policy_key = ignoring (do
  policy_key_part ← encode_uri_component policy_key
  with_method Method.delete (codes "/api/v1/admin/policies/" ++ policy_key_part))

unfoldable pub admin_get_anonymous_settings : Endpoint
admin_get_anonymous_settings = whole_of (plain (codes "/api/v1/admin/image-bed/anonymous-settings"))

unfoldable pub admin_set_anonymous_settings : Json → Endpoint
admin_set_anonymous_settings input =
    ignoring (with_json Method.put (codes "/api/v1/admin/image-bed/anonymous-settings") input)

unfoldable pub admin_get_static_config : Text → Endpoint
unfolding encode_uri_component
admin_get_static_config source_key = whole_of (do
  source_key_part ← encode_uri_component source_key
  plain (codes "/api/v1/admin/sources/" ++ (source_key_part ++ (codes "/static-access/config"))))

unfoldable pub admin_configure_static_assets : Text → Json → Endpoint
unfolding encode_uri_component
admin_configure_static_assets source_key input = whole_of (do
  source_key_part ← encode_uri_component source_key
  with_json Method.post
      (codes "/api/v1/admin/sources/" ++ (source_key_part ++ (codes "/static-access/config")))
      input)

unfoldable pub admin_update_static_assets : Text → Json → Endpoint
unfolding encode_uri_component
admin_update_static_assets source_key input = whole_of (do
  source_key_part ← encode_uri_component source_key
  with_json Method.put
      (codes "/api/v1/admin/sources/" ++ (source_key_part ++ (codes "/static-access/config")))
      input)

unfoldable pub admin_rebind_static_assets : Text → Json → Endpoint
unfolding encode_uri_component
admin_rebind_static_assets source_key input = whole_of (do
  source_key_part ← encode_uri_component source_key
  with_json Method.post
      (codes "/api/v1/admin/sources/" ++ (source_key_part ++ (codes "/static-access/rebind")))
      input)

unfoldable pub admin_preflight_static_assets : Text → Json → Endpoint
unfolding encode_uri_component
admin_preflight_static_assets source_key input = whole_of (do
  source_key_part ← encode_uri_component source_key
  with_json Method.post
      (codes "/api/v1/admin/sources/" ++ (source_key_part ++ (codes "/static-access/preflight")))
      input)

unfoldable pub admin_remove_static_config : Text → ℕ → Endpoint
unfolding encode_uri_component
admin_remove_static_config source_key revision = whole_of (do
  source_key_part ← encode_uri_component source_key
  with_json Method.delete
      (codes "/api/v1/admin/sources/" ++ (source_key_part ++ (codes "/static-access/config")))
      (obj (("expected_revision", number revision) ∷ [])))

unfoldable pub run_integrity_check : Endpoint
run_integrity_check =
    whole_of (with_method Method.post (codes "/api/v1/admin/operations/integrity-check"))

unfoldable pub run_operations_cleanup : Endpoint
run_operations_cleanup =
    whole_of (with_method Method.post (codes "/api/v1/admin/operations/cleanup"))

unfoldable pub admin_get_image_bed_retention : Endpoint
admin_get_image_bed_retention = whole_of (plain (codes "/api/v1/admin/image-bed/retention"))

unfoldable pub admin_set_image_bed_retention : Json → Endpoint
admin_set_image_bed_retention input =
    whole_of (with_json Method.put (codes "/api/v1/admin/image-bed/retention") input)

unfoldable pub fetch_admin_overview : Endpoint
fetch_admin_overview = whole_of (plain (codes "/api/v1/admin/overview"))

unfoldable pub update_profile : Text → Endpoint
update_profile display_name = whole_of (
    with_json Method.patch (codes "/api/v1/me/profile")
      (obj (("display_name", str display_name) ∷ [])))

unfoldable pub change_password : Text → Text → Endpoint
change_password old_password new_password = ignoring (
    with_json Method.post (codes "/api/v1/me/password")
      (obj (("old_password", str old_password) ∷ ("new_password", str new_password) ∷ [])))

unfoldable pub admin_get_branding : Endpoint
admin_get_branding = whole_of (plain (codes "/api/v1/admin/branding"))

unfoldable pub admin_set_branding : Text → Endpoint
admin_set_branding instance_name = ignoring (
    with_json Method.put (codes "/api/v1/admin/branding")
      (obj (("instance_name", str instance_name) ∷ [])))

-- The fields of an AuditLogQuery; a text that is missing or empty is left out of the query.
pub record AuditLogQuery : Type 0 where
  pub page : ℕ
  pub page_size : ℕ
  pub actor_type : Option Text
  pub entry_type : Option Text
  pub status : Option Text
  pub q : Option Text

unfoldable pub audit_logs_call : AuditLogQuery → Endpoint
unfolding set_param params_text decimal
audit_logs_call query =
    let params = set_text (codes "q") query.q (
      set_text (codes "status") query.status (
        set_text (codes "entry_type") query.entry_type (
          set_text (codes "actor_type") query.actor_type (
            (codes "page", decimal query.page)
            ∷ (codes "page_size", decimal query.page_size)
            ∷ [])))) in
    whole_of (plain (codes "/api/v1/admin/audit-logs?" ++ params_text params))

-- The page that adminFetchAuditLogs returns: what the answer lacks is taken from the query.
unfoldable pub audit_page : AuditLogQuery → Json → Json
unfolding member or_else
audit_page query v = obj (
    ("items", or_else (member "items" v) (array (items [])))
    ∷ ("total", or_else (member "total" v) (number 0))
    ∷ ("page", or_else (member "page" v) (number query.page))
    ∷ ("page_size", or_else (member "page_size" v) (number query.page_size))
    ∷ [])

abbrev pub after_audit :
    {W : Type 0} → AuditLogQuery → Client W × Outcome (Option Json) → Client W × Outcome Json
after_audit query (c, returned none) = (c, threw)
after_audit query (c, returned (some null)) = (c, threw)
after_audit query (c, returned (some v)) = (c, returned (audit_page query v))
after_audit query (c, refused e) = (c, refused e)
after_audit query (c, threw) = (c, threw)

unfoldable pub admin_fetch_audit_logs :
    {W : Type 0}
    → (FetchCall → W → W × Option Response)
    → AuditLogQuery
    → Client W
    → Client W × Outcome Json
unfolding run_endpoint audit_logs_call audit_page
admin_fetch_audit_logs fetch query c =
    after_audit query (run_endpoint fetch (audit_logs_call query) c)
