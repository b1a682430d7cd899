-- ===== src/Api/Shares.antt =====
-- web/src/api/shares.ts and public.ts: shares, the public view of them, and the public drive.
use omni_store.Common.{
  ℕ, Bool, true, false, Option, none, some, List, [], ◌∷◌, ◌++◌, keep, if◌then◌else◌,
}
use omni_store.Texts.{Text}
use omni_store.Uri.Bytes.{codes}
use omni_store.Uri.Escape.{encode_uri_component}
use omni_store.Uri.Query.{params_text}
use omni_store.Uri.Decimal.{decimal}
use omni_store.Uri.Target.{pieces}
use omni_store.Api.Json.{null, number, str, obj}
use omni_store.Api.Client.{Method}
use omni_store.Api.Calls.{
  ◌>>=◌, Endpoint, whole_of, list_of, ignoring, plain, with_method, with_json,
}
use omni_store.Api.Sources.{given, text_or}

unfoldable pub fetch_shares : Endpoint
fetch_shares = list_of (plain (codes "/api/v1/shares"))

unfoldable pub revoke_share : Text → Endpoint
unfolding encode_uri_component
revoke_share key = ignoring (do
  key_part ← encode_uri_component key
  with_method Method.delete (codes "/api/v1/shares/" ++ key_part))

unfoldable pub fetch_public_share : Text → Endpoint
unfolding encode_uri_component
fetch_public_share key =
    whole_of
      (do key_part ← encode_uri_component key; plain (codes "/api/v1/public/shares/" ++ key_part))

unfoldable pub unlock_public_share : Text → Text → Endpoint
unfolding encode_uri_component
unlock_public_share key password = ignoring (do
  key_part ← encode_uri_component key
  with_json Method.post (codes "/api/v1/public/shares/" ++ (key_part ++ (codes "/unlock")))
      (obj (("password", str password) ∷ [])))

unfoldable pub fetch_public_summary : Endpoint
fetch_public_summary = whole_of (plain (codes "/api/v1/public/summary"))

pub record ShareInput : Type 0 where
  pub source_key : Text
  pub path : Text
  pub password : Option Text
  pub expires_at : Option Text
  pub max_downloads : Option ℕ

abbrev pub count_or_none : Option ℕ → ℕ
count_or_none none = 0
count_or_none (some n) = n

unfoldable pub create_share : ShareInput → Endpoint
create_share input = whole_of (
    with_json Method.post (codes "/api/v1/shares") (
      obj (
        ("source_key", str input.source_key)
        ∷ ("path", str input.path)
        ∷ ("password", str (text_or input.password))
        ∷ ("expires_at", (if given input.expires_at then str (text_or input.expires_at) else null))
        ∷ ("max_downloads", number (count_or_none input.max_downloads))
        ∷ [])))

unfoldable pub browse_public_share : Text → Text → ℕ → Endpoint
unfolding encode_uri_component params_text decimal
browse_public_share key path page =
    let query =
      (codes "path", path) ∷ (codes "page", decimal page) ∷ (codes "page_size", codes "50") ∷ [] in
    whole_of (do
      k ← encode_uri_component key
      plain (codes "/api/v1/public/shares/" ++ (k ++ (codes "/browse?" ++ params_text query))))

unfoldable pub browse_public : Text → ℕ → Endpoint
unfolding params_text decimal
browse_public path page = whole_of (
    plain (
      codes "/api/v1/public/browse?"
      ++ params_text ((codes "path", path) ∷ (codes "page", decimal page) ∷ [])))

abbrev pub is_filled : Text → Bool
is_filled [] = false
is_filled (c ∷ s) = true

unfoldable pub encode_each : List Text → Option (List Text)
unfolding encode_uri_component
encode_each [] = some []
encode_each (t ∷ ts) = do e ← encode_uri_component t; es ← encode_each ts; some (e ∷ es)

unfoldable pub join_slashes : List Text → Text
join_slashes [] = []
join_slashes (t ∷ []) = t
join_slashes (t ∷ u ∷ ts) = t ++ (b'/' ∷ join_slashes (u ∷ ts))

-- `path.split('/').filter(Boolean)`.
unfoldable pub names_of : Text → List Text
unfolding pieces
names_of path = keep is_filled (pieces b'/' path)

abbrev pub below : Text → Text
below [] = []
below (c ∷ s) = b'/' ∷ c ∷ s

abbrev pub download_suffix : Bool → Text
download_suffix download = if download then codes "?download=1" else []

unfoldable pub public_share_raw_url : Text → Text → Bool → Option Text
unfolding encode_each join_slashes names_of encode_uri_component
public_share_raw_url key child_path download = do
  encoded ← encode_each (names_of child_path)
  k ← encode_uri_component key
  some (
      codes "/share/"
      ++ (k ++ (codes "/raw" ++ (below (join_slashes encoded) ++ download_suffix download))))

-- An empty path is left out of the query.
unfoldable pub public_share_archive_url : Text → Text → Option Text
unfolding encode_uri_component
public_share_archive_url key [] = do
  k ← encode_uri_component key
  some (codes "/share/" ++ (k ++ codes "/archive"))
public_share_archive_url key (c ∷ s) = do
  p ← encode_uri_component (c ∷ s)
  k ← encode_uri_component key
  some (codes "/share/" ++ (k ++ (codes "/archive?path=" ++ p)))

-- rawUrl of public.ts.
unfoldable pub raw_url : Text → Bool → Option Text
unfolding encode_each join_slashes names_of
raw_url virtual_path download = do
  encoded ← encode_each (names_of virtual_path)
  some (codes "/public/raw/" ++ (join_slashes encoded ++ download_suffix download))
