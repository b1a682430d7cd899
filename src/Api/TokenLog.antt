-- ===== src/Api/TokenLog.antt =====
-- What a run of the functions of web/src/api is to do with the CSRF token: a log of what was sent and answered.
use omni_store.Common.{Option, none, some, List, [], ◌∷◌, ◌++◌, map, ◌≡◌}
use omni_store.Texts.{Text}
use omni_store.Uri.Bytes.{codes}
use omni_store.Api.Json.{Json, null, str, member}
use omni_store.Api.Client.{
  Method, ApiCall, FetchCall, Response, Outcome, returned, refused, threw, Client, method_or_get,
  read_response,
}
use omni_store.Api.Sources.{download_archive_call}
use omni_store.Api.Session.{
  ApiRequest, by_api_fetch, sign_in, own_user, sign_out, config_export, archive_of,
}
use omni_store.Api.TokenHeader.{Carries}

-- A request that sets no headers of its own, as none of the API does.
abbrev pub PlainCall : Option ApiCall → Type 0
PlainCall none = Unit
PlainCall (some call) = call.headers ≡ []

abbrev pub PlainRequest : ApiRequest → Type 0
PlainRequest (by_api_fetch e) = PlainCall e.call
PlainRequest _ = Unit

abbrev pub asked_by : Option ApiCall → Option (Method × Text)
asked_by none = none
asked_by (some call) = some (method_or_get call.method, call.path)

-- What a request asks for, if its path can be written.
abbrev pub asked_of : ApiRequest → Option (Method × Text)
asked_of (by_api_fetch e) = asked_by e.call
asked_of (sign_in username password) = some (Method.post, codes "/api/v1/auth/login")
asked_of own_user = some (Method.get, codes "/api/v1/auth/me")
asked_of sign_out = some (Method.post, codes "/api/v1/auth/logout")
asked_of config_export = some (Method.get, codes "/api/v1/admin/system/config-export")
asked_of (archive_of source_key paths) = asked_by (download_archive_call source_key paths)

abbrev pub noted : Option (Method × Text) → ApiRequest → List ApiRequest → List ApiRequest
noted none r asked = asked
noted (some a) r asked = r ∷ asked

-- The requests of a run that are sent, the latest first.
abbrev pub latest_first : List ApiRequest → List ApiRequest → List ApiRequest
latest_first [] asked = asked
latest_first (r ∷ rs) asked = latest_first rs (noted (asked_of r) r asked)

-- The token that an answer to login or fetchMe gives, and the one that a logout leaves.
abbrev pub payload_token : Outcome (Option Json) → Option Json → Option Json
payload_token (returned none) t = t
payload_token (returned (some null)) t = t
payload_token (returned (some v)) t = member "csrf_token" v
payload_token (refused e) t = t
payload_token threw t = t

abbrev pub empty_token : Option Json
empty_token = some (str [])

abbrev pub emptied : Outcome (Option Json) → Option Json → Option Json
emptied (returned v) t = empty_token
emptied (refused e) t = t
emptied threw t = t

abbrev pub granted : ApiRequest → Option Response → Option Json → Option Json
granted (sign_in username password) answer t = payload_token (read_response answer) t
granted own_user answer t = payload_token (read_response answer) t
granted sign_out answer t = emptied (read_response answer) t
granted _ answer t = t

-- A request with its call of fetch, the world of fetch before it and the answer.
pub record Exchange (W : Type 0) : Type 0 where
  pub request : ApiRequest
  pub call : FetchCall
  pub before : W
  pub answer : Option Response

-- The token after exchanges, the latest of which comes first.
abbrev pub session : {W : Type 0} → Option Json → List (Exchange W) → Option Json
session t [] = t
session t (x ∷ log) = granted x.request x.answer (session t log)

module _ {W : Type 0} (fetch : FetchCall → W → W × Option Response) where
  -- An exchange in a session: its call asks for what the request is for, carries the token of the session, and
  -- is answered by fetch.
  pub record Exchanged (t : Option Json) (x : Exchange W) : Type 0 where
    pub carries : Carries t x.call
    pub asks : asked_of x.request ≡ some (x.call.method, x.call.url)
    pub answered : (fetch x.call x.before).1 ≡ x.answer

  abbrev pub Logged : Option Json → List (Exchange W) → Type 0
  Logged t [] = Unit
  Logged t (x ∷ log) = Exchanged (session t log) x × Logged t log

  -- The client after exchanges that started with the token `t` and the calls `sent`.
  pub record Tracks (t : Option Json) (sent : List FetchCall) (log : List (Exchange W))
      (asked : List ApiRequest) (c : Client W) : Type 0 where
    pub calls : c.sent ≡ map (λ (x : Exchange W). x.call) log ++ sent
    pub requests : map (λ (x : Exchange W). x.request) log ≡ asked
    pub logged : Logged t log
    pub token : c.csrf_token ≡ session t log
