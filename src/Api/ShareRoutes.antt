-- ===== src/Api/ShareRoutes.antt =====
-- How the requests and URLs of web/src/api/shares.ts and public.ts are read.
use omni_store.Common.{ℕ, [], ◌∷◌, ◌≡◌, refl, arith}
use omni_store.Texts.{Text}
use omni_store.Uri.Bytes.{codes}
use omni_store.Uri.Decimal.{decimal}
use omni_store.Uri.Reading.{path_text}
use omni_store.Api.Client.{Method}
use omni_store.Api.Routes.{
  route_of, route_call, meant, word, arg, with_component, path_route, query_route,
}
use omni_store.Api.Shares.{
  fetch_shares, revoke_share, fetch_public_share, unlock_public_share, fetch_public_summary,
  create_share, ShareInput, browse_public_share, browse_public,
}

browse_public_share_route :
    (key path : Text) (page : ℕ)
    → route_of (browse_public_share key path page)
      ≡ meant Method.get (word "public" ∷ word "shares" ∷ arg key ∷ word "browse" ∷ []) (
          (codes "path", path)
          ∷ (codes "page", decimal page)
          ∷ (codes "page_size", codes "50")
          ∷ [])
unfolding browse_public_share meant path_text
browse_public_share_route key path page =
    with_component _ route_call _
      (λ b hb.
        query_route Method.get (codes "public" ∷ codes "shares" ∷ b ∷ codes "browse" ∷ []) _
          ((codes "page", decimal page) ∷ (codes "page_size", codes "50") ∷ []) (codes "path", path)
          refl (omega arith, (omega arith, (hb, omega arith))))
      key

browse_public_route :
    (path : Text) (page : ℕ)
    → route_of (browse_public path page)
      ≡ meant Method.get
          (word "public" ∷ word "browse" ∷ [])
          ((codes "path", path) ∷ (codes "page", decimal page) ∷ [])
unfolding browse_public meant path_text
browse_public_route path page =
    query_route Method.get (codes "public" ∷ codes "browse" ∷ []) _
      ((codes "page", decimal page) ∷ []) (codes "path", path) refl (omega arith)

create_share_route :
    (input : ShareInput) → route_of (create_share input) ≡ meant Method.post (word "shares" ∷ []) []
unfolding create_share meant path_text
create_share_route input = path_route Method.post (codes "shares" ∷ []) (omega arith)

-- Each request about a share by its key is read with the bytes of the key as one segment.
pub share_key_routes :
    (key password : Text)
    → (route_of fetch_shares ≡ meant Method.get (word "shares" ∷ []) [])
      × (route_of (revoke_share key) ≡ meant Method.delete (word "shares" ∷ arg key ∷ []) [])
      × (route_of (fetch_public_share key)
          ≡ meant Method.get (word "public" ∷ word "shares" ∷ arg key ∷ []) [])
      × (route_of (unlock_public_share key password)
          ≡ meant Method.post (word "public" ∷ word "shares" ∷ arg key ∷ word "unlock" ∷ []) [])
      × (route_of fetch_public_summary ≡ meant Method.get (word "public" ∷ word "summary" ∷ []) [])
unfolding meant path_text fetch_shares revoke_share fetch_public_share unlock_public_share
    fetch_public_summary
share_key_routes key password = (
  path_route Method.get (codes "shares" ∷ []) (omega arith),
  with_component _ route_call _
      (λ key_b key_h.
        path_route Method.delete (codes "shares" ∷ key_b ∷ []) ((omega arith, (key_h, tt))))
      key,
  with_component _ route_call _
      (λ key_b key_h.
        path_route Method.get (codes "public" ∷ codes "shares" ∷ key_b ∷ [])
          ((omega arith, (omega arith, (key_h, tt)))))
      key,
  with_component _ route_call _
      (λ key_b key_h.
        path_route Method.post (codes "public" ∷ codes "shares" ∷ key_b ∷ codes "unlock" ∷ [])
          ((omega arith, (omega arith, (key_h, omega arith)))))
      key,
  path_route Method.get (codes "public" ∷ codes "summary" ∷ []) (omega arith),
)

-- The routes of shares and of the public drive.
abbrev pub ShareRoutesHold : Text → Text → Text → ℕ → ShareInput → Type 0
ShareRoutesHold key path password page input =
    (route_of fetch_shares ≡ meant Method.get (word "shares" ∷ []) [])
    × (route_of (create_share input) ≡ meant Method.post (word "shares" ∷ []) [])
    × (route_of (revoke_share key) ≡ meant Method.delete (word "shares" ∷ arg key ∷ []) [])
    × (route_of (fetch_public_share key)
        ≡ meant Method.get (word "public" ∷ word "shares" ∷ arg key ∷ []) [])
    × (route_of (unlock_public_share key password)
        ≡ meant Method.post (word "public" ∷ word "shares" ∷ arg key ∷ word "unlock" ∷ []) [])
    × (route_of fetch_public_summary ≡ meant Method.get (word "public" ∷ word "summary" ∷ []) [])
    × (route_of (browse_public_share key path page)
        ≡ meant Method.get (word "public" ∷ word "shares" ∷ arg key ∷ word "browse" ∷ []) (
            (codes "path", path)
            ∷ (codes "page", decimal page)
            ∷ (codes "page_size", codes "50")
            ∷ []))
    × (route_of (browse_public path page)
        ≡ meant Method.get (word "public" ∷ word "browse" ∷ [])
            ((codes "path", path) ∷ (codes "page", decimal page) ∷ []))

-- Each request about shares and the public drive is read by a server with its method and its path, in
-- which the bytes of the key are one segment, and with the path and the page in the query.
pub share_routes :
    (key path password : Text) (page : ℕ) (input : ShareInput)
    → ShareRoutesHold key path password page input
share_routes key path password page input =
    let k = share_key_routes key password in
    (
      k.0,
      create_share_route input,
      k.1,
      k.2,
      k.3,
      k.4,
      browse_public_share_route key path page,
      browse_public_route path page,
    )
