-- ===== src/Api/Client.antt =====
-- web/src/api/client.ts: apiFetch, apiFetchBlob and the CSRF token. What `fetch` does is a function of
-- the call and a world of its own.
use Prim.Native.String.{String}
use text.Mathlib.Text.{◌==◌}
use omni_store.Common.{
  ℕ, Bool, true, false, ◌&&◌, not, Option, none, some, List, [], ◌∷◌, if◌then◌else◌,
}
use omni_store.Texts.{Text}
use omni_store.Files.{File}
use omni_store.Uri.Bytes.{codes}
use omni_store.Api.Json.{Json, null, str, array, object, obj, member, or_else, truthy}

pub data Method : Type 0 where
  get head post put patch delete : Method

pub data FormValue : Type 0 where
  form_text : Text → FormValue
  form_file : File → FormValue

-- The body of a request: what JSON.stringify makes of a value, or a FormData.
pub data Body : Type 0 where
  json_text : Json → Body
  form : List (String × FormValue) → Body

-- A header's value: one that the client spells out, or the token.
pub data HeaderValue : Type 0 where
  literal : String → HeaderValue
  token : Json → HeaderValue

-- The arguments of apiFetch: the path and the RequestInit.
pub record ApiCall : Type 0 where
  pub path : Text
  pub method : Option Method
  pub headers : List (String × HeaderValue)
  pub body : Option Body

pub record FetchCall : Type 0 where
  pub url : Text
  pub method : Method
  pub headers : List (String × HeaderValue)
  pub body : Option Body

-- A response. `json` is `none` when its body is not JSON; `blob` is its body as it is.
pub record Response : Type 0 where
  pub ok : Bool
  pub json : Option Json
  pub disposition : Option Text
  pub blob : List ℕ

pub record ApiRequestError : Type 0 where
  pub code : Option Json
  pub message : Option Json
  pub request_id : Json
  pub details : Option Json

-- How a call ends: with a value, with an ApiRequestError, or with another exception.
pub data Outcome (A : Type 0) : Type 0 where
  returned : A → Outcome A
  refused : ApiRequestError → Outcome A
  threw : Outcome A

-- The module's `csrfToken` (`none` for undefined), the calls of `fetch` with the latest first, and the
-- world of `fetch`.
pub record Client (W : Type 0) : Type 0 where
  pub csrf_token : Option Json
  pub sent : List FetchCall
  pub world : W

unfoldable pub set_csrf_token : {W : Type 0} → Option Json → Client W → Client W
set_csrf_token t c = record c { csrf_token = t }

abbrev pub api_request_error : Json → Json → ApiRequestError
api_request_error error request_id = record {
  code = member "code" error;
  message = member "message" error;
  request_id = request_id;
  details = member "details" error;
}

abbrev pub internal_error : Json
internal_error = obj (("code", str (codes "INTERNAL_ERROR")) ∷ ("message", str (codes "请求失败")) ∷ [])

abbrev pub is_safe_method : Method → Bool
is_safe_method Method.get = true
is_safe_method Method.head = true
is_safe_method _ = false

abbrev pub method_or_get : Option Method → Method
method_or_get none = Method.get
method_or_get (some m) = m

-- The header of a record of headers, and setting one.
unfoldable pub header : String → List (String × HeaderValue) → Option HeaderValue
header k [] = none
header k ((j, v) ∷ hs) = if j == k then some v else header k hs

unfoldable pub set_header :
    String → HeaderValue → List (String × HeaderValue) → List (String × HeaderValue)
set_header k v [] = (k, v) ∷ []
set_header k v ((j, w) ∷ hs) = if j == k then (k, v) ∷ hs else (j, w) ∷ set_header k v hs

-- `{ ...base, ...more }`.
unfoldable pub spread :
    List (String × HeaderValue) → List (String × HeaderValue) → List (String × HeaderValue)
unfolding set_header
spread base [] = base
spread base ((k, v) ∷ hs) = spread (set_header k v base) hs

abbrev pub with_token :
    Method → Option Json → List (String × HeaderValue) → List (String × HeaderValue)
with_token m none hs = hs
with_token m (some t) hs =
    if not (is_safe_method m) && truthy (some t) then set_header "X-CSRF-Token" (token t) hs else hs

abbrev pub is_text : Option Body → Bool
is_text (some (json_text j)) = true
is_text _ = false

-- Whether a header is missing, or is set to an empty text.
abbrev pub is_blank : Option HeaderValue → Bool
is_blank none = true
is_blank (some (literal s)) = s == ""
is_blank (some (token t)) = not (truthy (some t))

abbrev pub with_content_type :
    Option Body → List (String × HeaderValue) → List (String × HeaderValue)
with_content_type b hs =
    if is_text b && is_blank (header "Content-Type" hs)
    then set_header "Content-Type" (literal "application/json") hs
    else hs

unfoldable pub request_headers : String → ApiCall → Option Json → List (String × HeaderValue)
unfolding spread set_header header truthy
request_headers accept call t = with_content_type call.body (
    with_token (method_or_get call.method) t
      (spread (("Accept", literal accept) ∷ []) call.headers))

abbrev pub fetch_call : String → ApiCall → Option Json → FetchCall
fetch_call accept call t = record {
  url = call.path;
  method = method_or_get call.method;
  headers = request_headers accept call t;
  body = call.body;
}

-- `err?.error ?? …` and `err?.request_id ?? ''`, where `err` is the body if it has an 'error'.
abbrev pub refusal : Option Json → Json → Outcome (Option Json)
refusal none body = refused (api_request_error internal_error (str []))
refusal (some e) body = refused (
    api_request_error (or_else (some e) internal_error)
      (or_else (member "request_id" body) (str [])))

-- What follows `await res.json()`, for a body that `in` can be asked of.
abbrev pub read_envelope : Bool → Option Json → Json → Outcome (Option Json)
read_envelope true none body = returned (member "data" body)
read_envelope _ error body = refusal error body

-- `'error' in body` throws for a body that is no object.
abbrev pub read_body : Bool → Option Json → Outcome (Option Json)
read_body ok none = threw
read_body ok (some (object fs)) = read_envelope ok (member "error" (object fs)) (object fs)
read_body ok (some (array xs)) = read_envelope ok none (array xs)
read_body ok (some _) = threw

abbrev pub read_response : Option Response → Outcome (Option Json)
read_response none = threw
read_response (some r) = read_body r.ok r.json

-- The error of a response to apiFetchBlob that is not ok: a body that is null or no JSON changes
-- nothing of the general error.
abbrev pub blob_error : Option Json → ApiRequestError
blob_error none = api_request_error internal_error (str [])
blob_error (some null) = api_request_error internal_error (str [])
blob_error (some body) =
    api_request_error (or_else (member "error" body) internal_error)
      (or_else (member "request_id" body) (str []))

abbrev pub read_blob : Option Response → Outcome Response
read_blob none = threw
read_blob (some r) = if r.ok then returned r else refused (blob_error r.json)

module _ {W : Type 0} (fetch : FetchCall → W → W × Option Response) where
  -- `fetch` gives `none` when it throws.
  unfoldable pub api_fetch : ApiCall → Client W → Client W × Outcome (Option Json)
  unfolding request_headers member or_else
  api_fetch call c =
      let request = fetch_call "application/json" call c.csrf_token in
      let (w, response) = fetch request c.world in
      (record c { sent = request ∷ c.sent; world = w }, read_response response)

  unfoldable pub api_fetch_blob : ApiCall → Client W → Client W × Outcome Response
  unfolding request_headers member or_else
  api_fetch_blob call c =
      let request = fetch_call "application/octet-stream" call c.csrf_token in
      let (w, response) = fetch request c.world in
      (record c { sent = request ∷ c.sent; world = w }, read_blob response)
