-- ===== src/Api/Examples.antt =====
-- Requests about the source "k é", the file "a/b?" and the share "s", and a server that answers as it
-- is asked.
use omni_store.Common.{
  ℕ, suc, true, false, Option, none, some, List, [], ◌∷◌, ◌++◌, ◌≡◌, ◌↔◌, refl, All,
}
use omni_store.Texts.{Text}
use omni_store.Files.{File}
use omni_store.ThemeMode.Store.{ThemeMode}
use omni_store.Uri.Bytes.{codes}
use omni_store.Api.Json.{null, str, obj}
use omni_store.Api.Client.{
  ApiCall, FetchCall, Response, returned, refused, Client, api_fetch, api_fetch_blob, blob_error,
}
use omni_store.Api.Calls.{◌>>=◌}
use omni_store.Api.Sources.{SearchParams, ListFilesParams, UploadFileOptions, create_folder}
use omni_store.Api.Shares.{ShareInput, public_share_raw_url}
use omni_store.Api.Admin.{SiteCapability}
use omni_store.Api.Account.{TokenType, logout}
use omni_store.Api.SourceQueries.{ReadRoutes, read_routes, WriteRoutes, write_routes}
use omni_store.Api.AdminSourceRoutes.{AdminSourceRoutesHold}
use omni_store.Api.AdminRoutes.{AdminRoutesHold, admin_routes}
use omni_store.Api.AccountRoutes.{AccountRoutesHold, account_routes}
use omni_store.Api.ShareRoutes.{ShareRoutesHold, share_routes}
use omni_store.Api.RawUrls.{read_url}
use omni_store.Api.ShareUrls.{public_share_raw_url_route, share_meant}
use omni_store.Api.Session.{ApiRequest, by_api_fetch, sign_in, archive_of, config_export, run_all}
use omni_store.Api.TokenLog.{PlainRequest, latest_first, Exchange, Tracks}
use omni_store.Api.Tokens.{run_all-Tracks}
use omni_store.Api.Logout.{Quiet, logout-Quiet}
use omni_store.Api.Errors.{
  Succeeds, answer_json, api_fetch-Succeeds, is_refused, is_json_object, api_fetch-is_refused,
}

-- "k é" and "a/b?".
abbrev key : Text
key = b'k' ∷ 0x20 ∷ 0xe9 ∷ []

abbrev path : Text
path = codes "a/b?"

abbrev search : SearchParams
search = record { query = path; source_key = some key; page = some 2; page_size = none }

abbrev listing : ListFilesParams
listing = record {
  path = path;
  page = some 2;
  page_size = some 50;
  sort = some (codes "name");
  order = none;
}

abbrev file : File
file = record { file_id = 1; name = path; webkit_relative_path = []; size = 3 }

abbrev options : UploadFileOptions
options = record { relative_path = none; overwrite = true }

read_routes_example : ReadRoutes key path true search listing
read_routes_example = read_routes key path true search listing

write_routes_example : WriteRoutes key path path key path key (path ∷ []) file options
write_routes_example = write_routes key path path key path key (path ∷ []) file options

account_routes_example :
    AccountRoutesHold null key path key key key key key 12 file TokenType.webdav ThemeMode.dark true
account_routes_example =
    account_routes null key path key key key key key 12 file TokenType.webdav ThemeMode.dark true

admin_routes_example :
    AdminSourceRoutesHold key null true (path ∷ []) 7
    × AdminRoutesHold SiteCapability.image_bed null 12 100 true key key key key key
admin_routes_example =
    admin_routes key (path ∷ []) 7 SiteCapability.image_bed null 12 100 true key key key key key

abbrev share : ShareInput
share = record {
  source_key = key;
  path = path;
  password = none;
  expires_at = none;
  max_downloads = some 3;
}

share_routes_example : ShareRoutesHold key path path 2 share
share_routes_example = share_routes key path path 2 share

public_share_raw_url_route_example :
    (public_share_raw_url key path false >>= read_url) ≡ share_meant key path false
public_share_raw_url_route_example = public_share_raw_url_route key path false

-- Every request is answered with the data `null`, and the calls are counted.
abbrev server : FetchCall → ℕ → ℕ × Option Response
server r n = (
  suc n,
  some (record {
    ok = true;
    json = some (obj (("data", null) ∷ []));
    disposition = none;
    blob = [];
  }),
)

abbrev client : Client ℕ
client = record { csrf_token = some (str (codes "t")); sent = []; world = 0 }

-- Every request is answered with a token and a user.
abbrev granting : FetchCall → ℕ → ℕ × Option Response
granting r n = (
  suc n,
  some (record {
    ok = true;
    json = some (obj (("data", obj (("csrf_token", str (codes "u")) ∷ ("user", null) ∷ [])) ∷ []));
    disposition = none;
    blob = [];
  }),
)

abbrev signed_out_run : List ApiRequest
signed_out_run =
    by_api_fetch (create_folder key path path) ∷ archive_of key (path ∷ []) ∷ config_export ∷ []

abbrev signed_in_run : List ApiRequest
signed_in_run = sign_in key key ∷ signed_out_run

signed_out_run-PlainRequest : All PlainRequest signed_out_run
unfolding create_folder
signed_out_run-PlainRequest = (refl, (tt, (tt, tt)))

-- After the login its token is the one that is sent.
new_token : (run_all granting signed_in_run client).csrf_token ≡ some (str (codes "u"))
unfolding run_all create_folder
new_token = refl

run_all-Tracks_example :
    (log : List (Exchange ℕ)) × Tracks granting client.csrf_token client.sent log
      (latest_first signed_in_run [])
      (run_all granting signed_in_run client)
run_all-Tracks_example =
    run_all-Tracks granting signed_in_run client (tt, signed_out_run-PlainRequest)

abbrev left : Client ℕ
left = (logout server client).0

logged_out : logout server client ≡ (left, returned none)
unfolding logout
logged_out = refl

logout-Quiet_example :
    (new : List FetchCall) × ((run_all server signed_out_run left).sent ≡ new ++ left.sent)
    × All Quiet new
logout-Quiet_example =
    logout-Quiet server signed_out_run client left none logged_out signed_out_run-PlainRequest
      (refl, (refl, (refl, tt)))

abbrev call : ApiCall
call = record { path = codes "/api/v1/sources"; method = none; headers = []; body = none }

api_fetch-Succeeds_example :
    ((api_fetch server call client).1 ≡ returned (some null))
    ↔ Succeeds (answer_json server call client) (some null)
api_fetch-Succeeds_example = api_fetch-Succeeds server call client (some null)

-- A proxy that answers with an error page.
abbrev page : Response
page = record { ok = false; json = none; disposition = none; blob = [] }

abbrev proxy : FetchCall → ℕ → ℕ × Option Response
proxy r n = (n, some page)

api_fetch-is_refused_example :
    (is_refused (api_fetch proxy call client).1 ≡ is_json_object page.json)
    × ((api_fetch_blob proxy call client).1 ≡ refused (blob_error page.json))
api_fetch-is_refused_example = api_fetch-is_refused proxy call client page page refl refl refl refl
