-- ===== src/Api/Calls.antt =====
-- What the functions of web/src/api pass to apiFetch, and what they make of what it returns.
use omni_store.Common.{Option, none, some, []}
use omni_store.Texts.{Text}
use omni_store.Api.Json.{Json, nil, array, member, or_else}
use omni_store.Api.Client.{
  Method, Body, json_text, ApiCall, Response, Outcome, returned, refused, threw, Client, FetchCall,
  api_fetch,
}

infixl 5 ◌>>=◌
abbrev pub ◌>>=◌ : {A B : Type 0} → Option A → (A → Option B) → Option B
none >>= f = none
some a >>= f = f a

-- `return apiFetch(…)`, `(await apiFetch(…)).items ?? []`, or `await apiFetch(…)` with no result.
pub data Use : Type 0 where
  whole listed ignored : Use

-- A function of the API, at its arguments: its call, which is `none` when building the path throws a
-- URIError, and what is made of the result.
pub record Endpoint : Type 0 where
  pub call : Option ApiCall
  pub result : Use

abbrev pub whole_of : Option ApiCall → Endpoint
whole_of c = record { call = c; result = whole }

abbrev pub list_of : Option ApiCall → Endpoint
list_of c = record { call = c; result = listed }

abbrev pub ignoring : Option ApiCall → Endpoint
ignoring c = record { call = c; result = ignored }

-- `apiFetch(path)`.
abbrev pub plain : Text → Option ApiCall
plain path = some (record { path = path; method = none; headers = []; body = none })

-- `apiFetch(path, { method })`.
abbrev pub with_method : Method → Text → Option ApiCall
with_method m path = some (record { path = path; method = some m; headers = []; body = none })

-- `apiFetch(path, { method, body })`, for a body of JSON and for any.
abbrev pub with_body : Method → Text → Body → Option ApiCall
with_body m path b = some (record { path = path; method = some m; headers = []; body = some b })

abbrev pub with_json : Method → Text → Json → Option ApiCall
with_json m path j = with_body m path (json_text j)

-- The value of a function that returns `data.items ?? []` or nothing. `none` is undefined, whose
-- members cannot be read; neither can those of null.
unfoldable pub used : Use → Option Json → Outcome (Option Json)
unfolding member or_else
used whole v = returned v
used ignored v = returned none
used listed none = threw
used listed (some Json.null) = threw
used listed (some v) = returned (some (or_else (member "items" v) (array nil)))

abbrev pub then_use : Use → Outcome (Option Json) → Outcome (Option Json)
then_use u (returned v) = used u v
then_use u (refused e) = refused e
then_use u threw = threw

module _ {W : Type 0} (fetch : FetchCall → W → W × Option Response) where
  abbrev pub use_after : Use → Client W × Outcome (Option Json) → Client W × Outcome (Option Json)
  use_after u (c, o) = (c, then_use u o)

  abbrev pub run_call : Use → Option ApiCall → Client W → Client W × Outcome (Option Json)
  run_call u none c = (c, threw)
  run_call u (some call) c = use_after u (api_fetch fetch call c)

  unfoldable pub run_endpoint : Endpoint → Client W → Client W × Outcome (Option Json)
  unfolding api_fetch used
  run_endpoint e c = run_call e.result e.call c
