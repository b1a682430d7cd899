-- ===== src/Api/Errors.antt =====
-- The errors of web/src/api/client.ts: what the answers to apiFetch and apiFetchBlob come to.
use omni_store.Common.{
  Bool, true, false, Option, none, some, if◌then◌else◌, ◌≡◌, ◌↔◌, refl, ap, sym, ◌∙◌,
}
use omni_store.Api.Json.{Json, null, boolean, number, str, array, object, Items, member}
use omni_store.Api.Client.{
  ApiCall, FetchCall, Response, Outcome, returned, refused, Client, api_fetch, api_fetch_blob,
  fetch_call, read_body, read_response, read_blob, read_envelope, blob_error,
}

-- A body that `in` can be asked of.
abbrev pub is_object : Json → Bool
is_object (object fs) = true
is_object (array xs) = true
is_object _ = false

-- The answer that apiFetch returns a value for.
pub record Succeeds (response : Option Response) (v : Option Json) : Type 0 where
  pub answer : Response
  pub body : Json
  pub arrived : response ≡ some answer
  pub ok : answer.ok ≡ true
  pub json : answer.json ≡ some body
  pub is_object : is_object body ≡ true
  pub no_error : member "error" body ≡ none
  pub value : v ≡ member "data" body

envelope :
    (ok : Bool) (e : Option Json) (body : Json) (v : Option Json)
    → read_envelope ok e body ≡ returned v
    → (ok ≡ true) × (e ≡ none) × (v ≡ member "data" body)
envelope true none body v h = (refl, refl, cc h)
envelope true (some e) body v h = cc h
envelope false none body v h = cc h
envelope false (some e) body v h = cc h

no_member : (xs : Items) → member "error" (array xs) ≡ none
unfolding member
no_member xs = refl

read-Succeeds :
    (response : Option Response) (v : Option Json)
    → read_response response ≡ returned v
    → Succeeds response v
read-Succeeds none v h = cc h
read-Succeeds (some r) v h = of r.json refl h
  where
    of : (j : Option Json) → r.json ≡ j → read_body r.ok j ≡ returned v → Succeeds (some r) v
    of none e h = cc h
    of (some (object fs)) e h =
        let (ok, none_, value) = envelope r.ok (member "error" (object fs)) (object fs) v h in
        record {
          answer = r;
          body = object fs;
          arrived = refl;
          ok = ok;
          json = e;
          is_object = refl;
          no_error = none_;
          value = value;
        }
    of (some (array xs)) e h =
        let (ok, none_, value) = envelope r.ok none (array xs) v h in
        record {
          answer = r;
          body = array xs;
          arrived = refl;
          ok = ok;
          json = e;
          is_object = refl;
          no_error = no_member xs;
          value = value;
        }
    of (some null) e h = cc h
    of (some (boolean b)) e h = cc h
    of (some (number n)) e h = cc h
    of (some (str s)) e h = cc h

body-returned :
    (body : Json)
    → is_object body ≡ true
    → member "error" body ≡ none
    → read_body true (some body) ≡ returned (member "data" body)
body-returned (object fs) o n = rw n
body-returned (array xs) o n = refl
body-returned null o n = cc o
body-returned (boolean b) o n = cc o
body-returned (number k) o n = cc o
body-returned (str s) o n = cc o

Succeeds-read :
    (response : Option Response) (v : Option Json)
    → Succeeds response v
    → read_response response ≡ returned v
Succeeds-read response v s =
    ap read_response s.arrived
    ∙ ap (λ b. read_body b s.answer.json) s.ok
    ∙ ap (read_body true) s.json
    ∙ body-returned s.body s.is_object s.no_error
    ∙ ap returned (sym s.value)

abbrev pub is_refused : {A : Type 0} → Outcome A → Bool
is_refused (refused e) = true
is_refused _ = false

abbrev pub is_json_object : Option Json → Bool
is_json_object none = false
is_json_object (some j) = is_object j

not_ok : (j : Option Json) → is_refused (read_body false j) ≡ is_json_object j
not_ok none = refl
not_ok (some (object fs)) = of (member "error" (object fs))
  where
    of : (e : Option Json) → is_refused (read_envelope false e (object fs)) ≡ true
    of none = refl
    of (some e) = refl
not_ok (some (array xs)) = refl
not_ok (some null) = refl
not_ok (some (boolean b)) = refl
not_ok (some (number n)) = refl
not_ok (some (str s)) = refl

module _ {W : Type 0} (fetch : FetchCall → W → W × Option Response) (call : ApiCall)
    (c : Client W) where
  -- What fetch answers to the call that apiFetch makes, and to that of apiFetchBlob.
  abbrev pub answer_json : Option Response
  answer_json = (fetch (fetch_call "application/json" call c.csrf_token) c.world).1

  abbrev pub answer_blob : Option Response
  answer_blob = (fetch (fetch_call "application/octet-stream" call c.csrf_token) c.world).1

  -- apiFetch returns a value exactly when fetch gives an answer that is ok, with a JSON object or array that
  -- has no 'error', and the value is then its 'data'.
  pub api_fetch-Succeeds :
      (v : Option Json) → ((api_fetch fetch call c).1 ≡ returned v) ↔ Succeeds answer_json v
  unfolding api_fetch
  api_fetch-Succeeds v = (read-Succeeds answer_json v, Succeeds-read answer_json v)

  -- For an answer that is not ok, apiFetchBlob always ends in an ApiRequestError, and apiFetch exactly when
  -- the body is a JSON object or array; with any other body it throws another error.
  pub api_fetch-is_refused :
      (r s : Response)
      → answer_json ≡ some r
      → answer_blob ≡ some s
      → r.ok ≡ false
      → s.ok ≡ false
      → (is_refused (api_fetch fetch call c).1 ≡ is_json_object r.json)
        × ((api_fetch_blob fetch call c).1 ≡ refused (blob_error s.json))
  unfolding api_fetch api_fetch_blob
  api_fetch-is_refused r s a b p q = (
    ap (λ o. is_refused (read_response o)) a
        ∙ ap (λ o. is_refused (read_body o r.json)) p
        ∙ not_ok r.json,
    ap read_blob b ∙ ap (λ (o : Bool). if o then returned s else refused (blob_error s.json)) q,
  )
