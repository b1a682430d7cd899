-- ===== src/Api/AdminSourceRoutes.antt =====
-- How the requests of web/src/api/admin.ts about one source are read.
use omni_store.Common.{ℕ, Bool, true, false, List, [], ◌∷◌, ◌≡◌, arith}
use omni_store.Texts.{Text}
use omni_store.Uri.Bytes.{codes}
use omni_store.Uri.Reading.{path_text}
use omni_store.Api.Json.{Json}
use omni_store.Api.Client.{Method}
use omni_store.Api.Routes.{
  route_of, route_call, meant, switch_word, word, arg, with_component, path_route,
}
use omni_store.Api.Admin.{
  admin_get_source, admin_reconcile_source, admin_update_source, admin_set_source_disabled,
  admin_delete_source, admin_set_exclude_patterns, admin_get_static_config,
  admin_configure_static_assets, admin_update_static_assets, admin_rebind_static_assets,
  admin_preflight_static_assets, admin_remove_static_config,
}

admin_set_source_disabled_route :
    (source_key : Text) (disabled : Bool)
    → route_of (admin_set_source_disabled source_key disabled)
      ≡ meant Method.post
          (word "admin" ∷ word "sources" ∷ arg source_key ∷ word (switch_word disabled) ∷ [])
          []
unfolding admin_set_source_disabled meant path_text
admin_set_source_disabled_route source_key true =
    with_component _ route_call _
      (λ source_key_b source_key_h.
        path_route Method.post
          (codes "admin" ∷ codes "sources" ∷ source_key_b ∷ codes "disable" ∷ [])
          ((omega arith, (omega arith, (source_key_h, omega arith)))))
      source_key
admin_set_source_disabled_route source_key false =
    with_component _ route_call _
      (λ source_key_b source_key_h.
        path_route Method.post
          (codes "admin" ∷ codes "sources" ∷ source_key_b ∷ codes "enable" ∷ [])
          ((omega arith, (omega arith, (source_key_h, omega arith)))))
      source_key

-- The routes of the administration of one source.
abbrev pub AdminSourceRoutesHold : Text → Json → Bool → List Text → ℕ → Type 0
AdminSourceRoutesHold source_key input disabled patterns revision =
    (route_of (admin_get_source source_key)
      ≡ meant Method.get (word "admin" ∷ word "sources" ∷ arg source_key ∷ []) [])
    × (route_of (admin_reconcile_source source_key)
        ≡ meant Method.post (word "admin" ∷ word "sources" ∷ arg source_key ∷ word "reconcile" ∷ [])
            [])
    × (route_of (admin_update_source source_key input)
        ≡ meant Method.patch (word "admin" ∷ word "sources" ∷ arg source_key ∷ []) [])
    × (route_of (admin_set_source_disabled source_key disabled)
        ≡ meant Method.post
            (word "admin" ∷ word "sources" ∷ arg source_key ∷ word (switch_word disabled) ∷ []) [])
    × (route_of (admin_delete_source source_key)
        ≡ meant Method.delete (word "admin" ∷ word "sources" ∷ arg source_key ∷ []) [])
    × (route_of (admin_set_exclude_patterns source_key patterns)
        ≡ meant Method.put
            (word "admin" ∷ word "sources" ∷ arg source_key ∷ word "exclude-patterns" ∷ []) [])
    × (route_of (admin_get_static_config source_key)
        ≡ meant Method.get
            (word "admin"
              ∷ word "sources"
              ∷ arg source_key
              ∷ word "static-access"
              ∷ word "config"
              ∷ [])
            [])
    × (route_of (admin_configure_static_assets source_key input)
        ≡ meant Method.post
            (word "admin"
              ∷ word "sources"
              ∷ arg source_key
              ∷ word "static-access"
              ∷ word "config"
              ∷ [])
            [])
    × (route_of (admin_update_static_assets source_key input)
        ≡ meant Method.put
            (word "admin"
              ∷ word "sources"
              ∷ arg source_key
              ∷ word "static-access"
              ∷ word "config"
              ∷ [])
            [])
    × (route_of (admin_rebind_static_assets source_key input)
        ≡ meant Method.post
            (word "admin"
              ∷ word "sources"
              ∷ arg source_key
              ∷ word "static-access"
              ∷ word "rebind"
              ∷ [])
            [])
    × (route_of (admin_preflight_static_assets source_key input)
        ≡ meant Method.post
            (word "admin"
              ∷ word "sources"
              ∷ arg source_key
              ∷ word "static-access"
              ∷ word "preflight"
              ∷ [])
            [])
    × (route_of (admin_remove_static_config source_key revision)
        ≡ meant Method.delete
            (word "admin"
              ∷ word "sources"
              ∷ arg source_key
              ∷ word "static-access"
              ∷ word "config"
              ∷ [])
            [])

pub admin_source_routes :
    (source_key : Text) (input : Json) (disabled : Bool) (patterns : List Text) (revision : ℕ)
    → AdminSourceRoutesHold source_key input disabled patterns revision
unfolding meant path_text admin_get_source admin_reconcile_source admin_update_source
    admin_set_source_disabled admin_delete_source admin_set_exclude_patterns admin_get_static_config
    admin_configure_static_assets admin_update_static_assets admin_rebind_static_assets
    admin_preflight_static_assets admin_remove_static_config
admin_source_routes source_key input disabled patterns revision = (
  with_component _ route_call _
      (λ source_key_b source_key_h.
        path_route Method.get (codes "admin" ∷ codes "sources" ∷ source_key_b ∷ [])
          ((omega arith, (omega arith, (source_key_h, tt)))))
      source_key,
  with_component _ route_call _
      (λ source_key_b source_key_h.
        path_route Method.post
          (codes "admin" ∷ codes "sources" ∷ source_key_b ∷ codes "reconcile" ∷ [])
          ((omega arith, (omega arith, (source_key_h, omega arith)))))
      source_key,
  with_component _ route_call _
      (λ source_key_b source_key_h.
        path_route Method.patch (codes "admin" ∷ codes "sources" ∷ source_key_b ∷ [])
          ((omega arith, (omega arith, (source_key_h, tt)))))
      source_key,
  admin_set_source_disabled_route source_key disabled,
  with_component _ route_call _
      (λ source_key_b source_key_h.
        path_route Method.delete (codes "admin" ∷ codes "sources" ∷ source_key_b ∷ [])
          ((omega arith, (omega arith, (source_key_h, tt)))))
      source_key,
  with_component _ route_call _
      (λ source_key_b source_key_h.
        path_route Method.put
          (codes "admin" ∷ codes "sources" ∷ source_key_b ∷ codes "exclude-patterns" ∷ [])
          ((omega arith, (omega arith, (source_key_h, omega arith)))))
      source_key,
  with_component _ route_call _
      (λ source_key_b source_key_h.
        path_route Method.get
          (codes "admin"
            ∷ codes "sources"
            ∷ source_key_b
            ∷ codes "static-access"
            ∷ codes "config"
            ∷ [])
          ((omega arith, (omega arith, (source_key_h, omega arith)))))
      source_key,
  with_component _ route_call _
      (λ source_key_b source_key_h.
        path_route Method.post
          (codes "admin"
            ∷ codes "sources"
            ∷ source_key_b
            ∷ codes "static-access"
            ∷ codes "config"
            ∷ [])
          ((omega arith, (omega arith, (source_key_h, omega arith)))))
      source_key,
  with_component _ route_call _
      (λ source_key_b source_key_h.
        path_route Method.put
          (codes "admin"
            ∷ codes "sources"
            ∷ source_key_b
            ∷ codes "static-access"
            ∷ codes "config"
            ∷ [])
          ((omega arith, (omega arith, (source_key_h, omega arith)))))
      source_key,
  with_component _ route_call _
      (λ source_key_b source_key_h.
        path_route Method.post
          (codes "admin"
            ∷ codes "sources"
            ∷ source_key_b
            ∷ codes "static-access"
            ∷ codes "rebind"
            ∷ [])
          ((omega arith, (omega arith, (source_key_h, omega arith)))))
      source_key,
  with_component _ route_call _
      (λ source_key_b source_key_h.
        path_route Method.post
          (codes "admin"
            ∷ codes "sources"
            ∷ source_key_b
            ∷ codes "static-access"
            ∷ codes "preflight"
            ∷ [])
          ((omega arith, (omega arith, (source_key_h, omega arith)))))
      source_key,
  with_component _ route_call _
      (λ source_key_b source_key_h.
        path_route Method.delete
          (codes "admin"
            ∷ codes "sources"
            ∷ source_key_b
            ∷ codes "static-access"
            ∷ codes "config"
            ∷ [])
          ((omega arith, (omega arith, (source_key_h, omega arith)))))
      source_key,
)
