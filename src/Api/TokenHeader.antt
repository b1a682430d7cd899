-- ===== src/Api/TokenHeader.antt =====
-- The header of the CSRF token, in the calls of fetch of web/src/api/client.ts.
use Prim.Native.String.{String}
use text.Mathlib.Text.{◌==◌ as ◌=ₛ◌}
use text.Mathlib.TextEquality.{eq_iff}
use omni_store.Common.{
  ap, Bool, true, false, ◌&&◌, not, Option, none, some, List, [], ◌∷◌, if◌then◌else◌, if_ind, ◌≡◌,
  refl, ◌∙◌, arith,
}
use omni_store.Api.Json.{Json, truthy}
use omni_store.Api.Client.{
  Method, HeaderValue, token, literal, ApiCall, FetchCall, header, set_header, request_headers,
  method_or_get, is_safe_method, with_token, with_content_type, fetch_call, is_text, is_blank,
  spread,
}
use omni_store.Api.Session.{}

header-set_header :
    (k j : String) (v : HeaderValue) (hs : List (String × HeaderValue))
    → header j (set_header k v hs) ≡ (if k =ₛ j then some v else header j hs)
unfolding header set_header
header-set_header k j v [] = refl
header-set_header k j v ((i, w) ∷ hs) =
    ground (arith, eq_iff k j, eq_iff i k, eq_iff i j, header-set_header k j v hs)

abbrev pub writes : Method → Bool
writes Method.get = false
writes Method.head = false
writes Method.post = true
writes Method.put = true
writes Method.patch = true
writes Method.delete = true

not-is_safe_method : (m : Method) → not (is_safe_method m) ≡ writes m
not-is_safe_method Method.get = refl
not-is_safe_method Method.head = refl
not-is_safe_method Method.post = refl
not-is_safe_method Method.put = refl
not-is_safe_method Method.patch = refl
not-is_safe_method Method.delete = refl

-- The header that a token asks for: none for GET and HEAD, and none for a token that counts as false.
abbrev pub token_header : Method → Option Json → Option HeaderValue
token_header m none = none
token_header m (some t) = if writes m && truthy (some t) then some (token t) else none

abbrev pub Carries : Option Json → FetchCall → Type 0
Carries t r = header "X-CSRF-Token" r.headers ≡ token_header r.method t

content_type-header :
    (c : ApiCall) (hs : List (String × HeaderValue))
    → header "X-CSRF-Token" (with_content_type c.body hs) ≡ header "X-CSRF-Token" hs
content_type-header c hs =
    if_ind (λ l. header "X-CSRF-Token" l ≡ header "X-CSRF-Token" hs)
      (is_text c.body && is_blank (header "Content-Type" hs))
      (header-set_header "Content-Type" "X-CSRF-Token" (literal "application/json") hs ∙ refl) refl

token-header :
    (m : Method) (t : Option Json) (hs : List (String × HeaderValue))
    → header "X-CSRF-Token" hs ≡ none
    → header "X-CSRF-Token" (with_token m t hs) ≡ token_header m t
token-header m none hs h = h
token-header m (some t) hs h =
    of (not (is_safe_method m) && truthy (some t))
    ∙ ap (λ b. if b && truthy (some t) then some (token t) else none) (not-is_safe_method m)
  where
    of :
        (b : Bool)
        → header "X-CSRF-Token" (if b then set_header "X-CSRF-Token" (token t) hs else hs)
          ≡ (if b then some (token t) else none)
    of true = header-set_header "X-CSRF-Token" "X-CSRF-Token" (token t) hs
    of false = h

accept_only :
    (accept : String) (hs : List (String × HeaderValue))
    → hs ≡ []
    → header "X-CSRF-Token" (spread (("Accept", literal accept) ∷ []) hs) ≡ none
unfolding header spread
accept_only accept [] h = refl
accept_only accept (x ∷ hs) h = cc h

-- Every call of fetch carries the token exactly when its method is not safe and the token counts as true.
pub call-Carries :
    (accept : String) (c : ApiCall) (t : Option Json)
    → c.headers ≡ []
    → Carries t (fetch_call accept c t)
unfolding request_headers
call-Carries accept c t h =
    content_type-header c
      (with_token (method_or_get c.method) t (spread (("Accept", literal accept) ∷ []) c.headers))
    ∙ token-header (method_or_get c.method) t (spread (("Accept", literal accept) ∷ []) c.headers)
        (accept_only accept c.headers h)
