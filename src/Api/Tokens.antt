-- ===== src/Api/Tokens.antt =====
-- The CSRF token of web/src/api/client.ts through any run of the functions of web/src/api.
use mathlib.Core.Path.{subst}
use omni_store.Common.{Option, none, some, List, [], ◌∷◌, ◌++◌, ◌≡◌, refl, ap, sym, ◌∙◌, All}
use omni_store.Texts.{Text}
use omni_store.Uri.Bytes.{codes}
use omni_store.Api.Json.{Json, null, boolean, number, str, array, object, obj, items, texts_of}
use omni_store.Api.Client.{
  Method, literal, ApiCall, FetchCall, Response, Outcome, returned, refused, threw, Client,
  set_csrf_token, header, fetch_call, api_fetch, api_fetch_blob, read_response, read_blob,
  json_text,
}
use omni_store.Uri.Escape.{encode_uri_component}
use omni_store.Api.Calls.{◌>>=◌, with_json, Use, run_endpoint, run_call, then_use, used}
use omni_store.Api.Sources.{download_archive_call}
use omni_store.Api.Account.{login, fetch_me, logout, after_auth, after_logout}
use omni_store.Api.Downloads.{archive, saved, admin_export_system_config}
use omni_store.Api.Session.{
  ApiRequest, by_api_fetch, sign_in, own_user, sign_out, config_export, archive_of, perform,
  run_all,
}
use omni_store.Api.TokenLog.{
  PlainCall, PlainRequest, asked_by, asked_of, noted, latest_first, payload_token, emptied, granted,
  Exchange, Exchanged, Tracks,
}
use omni_store.Api.TokenHeader.{Carries, call-Carries}

-- What login, fetchMe and logout pass to apiFetch.
abbrev login_api : Text → Text → ApiCall
login_api username password = record {
  path = codes "/api/v1/auth/login";
  method = some Method.post;
  headers = [];
  body = some (json_text (obj (("username", str username) ∷ ("password", str password) ∷ [])));
}

abbrev me_api : ApiCall
me_api = record { path = codes "/api/v1/auth/me"; method = none; headers = []; body = none }

abbrev logout_api : ApiCall
logout_api = record {
  path = codes "/api/v1/auth/logout";
  method = some Method.post;
  headers = [];
  body = none;
}

module _ {W : Type 0} (fetch : FetchCall → W → W × Option Response) where
  -- One more exchange.
  one_more-Tracks :
      (t : Option Json) (sent : List FetchCall) (log : List (Exchange W)) (asked : List ApiRequest)
      (c c' : Client W) (x : Exchange W)
      → Tracks fetch t sent log asked c
      → c'.sent ≡ x.call ∷ c.sent
      → c'.csrf_token ≡ granted x.request x.answer c.csrf_token
      → Exchanged fetch c.csrf_token x
      → Tracks fetch t sent (x ∷ log) (x.request ∷ asked) c'
  one_more-Tracks t sent log asked c c' x h s g e = record {
    calls = s ∙ ap (λ l. x.call ∷ l) h.calls;
    requests = ap (λ l. x.request ∷ l) h.requests;
    logged = (subst (λ u. Exchanged fetch u x) h.token e, h.logged);
    token = g ∙ ap (λ u. granted x.request x.answer u) h.token;
  }

  abbrev Stays : Option Json → List FetchCall → ApiRequest → List ApiRequest → Client W → Type 0
  Stays t sent r asked c' =
      (log : List (Exchange W)) × Tracks fetch t sent log (noted (asked_of r) r asked) c'

  after_auth-token :
      (d : Client W) (o : Outcome (Option Json))
      → ((after_auth (d, then_use Use.whole o)).0.sent ≡ d.sent)
        × ((after_auth (d, then_use Use.whole o)).0.csrf_token ≡ payload_token o d.csrf_token)
  unfolding set_csrf_token used
  after_auth-token d (returned none) = (refl, refl)
  after_auth-token d (returned (some null)) = (refl, refl)
  after_auth-token d (returned (some (boolean b))) = (refl, refl)
  after_auth-token d (returned (some (number n))) = (refl, refl)
  after_auth-token d (returned (some (str s))) = (refl, refl)
  after_auth-token d (returned (some (array xs))) = (refl, refl)
  after_auth-token d (returned (some (object fs))) = (refl, refl)
  after_auth-token d (refused e) = (refl, refl)
  after_auth-token d threw = (refl, refl)

  after_logout-token :
      (d : Client W) (o : Outcome (Option Json))
      → ((after_logout (d, then_use Use.ignored o)).0.sent ≡ d.sent)
        × ((after_logout (d, then_use Use.ignored o)).0.csrf_token ≡ emptied o d.csrf_token)
  unfolding set_csrf_token used
  after_logout-token d (returned v) = (refl, refl)
  after_logout-token d (refused e) = (refl, refl)
  after_logout-token d threw = (refl, refl)

  saved-same :
      (fallback : Text) (d : Client W) (o : Outcome Response) → (saved fallback (d, o)).0 ≡ d
  saved-same fallback d (returned r) = refl
  saved-same fallback d (refused e) = refl
  saved-same fallback d threw = refl

  -- A request that is sent, with the client after it.
  perform-sent :
      (t : Option Json) (sent : List FetchCall) (log : List (Exchange W)) (asked : List ApiRequest)
      (r : ApiRequest) (c c' : Client W) (call : FetchCall)
      → Tracks fetch t sent log asked c
      → c'.sent ≡ call ∷ c.sent
      → c'.csrf_token ≡ granted r (fetch call c.world).1 c.csrf_token
      → Carries c.csrf_token call
      → asked_of r ≡ some (call.method, call.url)
      → Stays t sent r asked c'
  perform-sent t sent log asked r c c' call h s g k a =
      let x : Exchange W = record {
        request = r;
        call = call;
        before = c.world;
        answer = (fetch call c.world).1;
      } in
      (
        x ∷ log,
        rw a (
            one_more-Tracks t sent log asked c c' x h s g
              (record { carries = k; asks = a; answered = refl })),
      )

  -- login and fetchMe.
  auth-Stays :
      (t : Option Json) (sent : List FetchCall) (log : List (Exchange W)) (asked : List ApiRequest)
      (r : ApiRequest) (c : Client W) (api : ApiCall)
      → api.headers ≡ []
      → asked_of r ≡ asked_by (some api)
      → ((a : Option Response) (u : Option Json)
          → granted r a u ≡ payload_token (read_response a) u)
      → Tracks fetch t sent log asked c
      → Stays t sent r asked (after_auth (run_call fetch Use.whole (some api) c)).0
  unfolding api_fetch
  auth-Stays t sent log asked r c api p a g h =
      let call = fetch_call "application/json" api c.csrf_token in
      let answer = (fetch call c.world).1 in
      let d : Client W = record c { sent = call ∷ c.sent; world = (fetch call c.world).0 } in
      let e = after_auth-token d (read_response answer) in
      perform-sent t sent log asked r c _ call h e.0 (e.1 ∙ sym (g answer c.csrf_token))
        (call-Carries "application/json" api c.csrf_token p) a

  blob-Stays :
      (t : Option Json) (sent : List FetchCall) (log : List (Exchange W)) (asked : List ApiRequest)
      (source_key : Text) (paths : List Text) (c : Client W) (o : Option ApiCall)
      → download_archive_call source_key paths ≡ o
      → PlainCall o
      → Tracks fetch t sent log asked c
      → Stays t sent (archive_of source_key paths) asked (archive fetch o c).0
  unfolding api_fetch_blob
  blob-Stays t sent log asked source_key paths c none q p h = (log, rw q h)
  blob-Stays t sent log asked source_key paths c (some api) q p h =
      let call = fetch_call "application/octet-stream" api c.csrf_token in
      let d : Client W = record c { sent = call ∷ c.sent; world = (fetch call c.world).0 } in
      let e = saved-same (codes "omnistore-download.zip") d (read_blob (fetch call c.world).1) in
      perform-sent t sent log asked (archive_of source_key paths) c _ call h
        (ap (λ (x : Client W). x.sent) e) (ap (λ (x : Client W). x.csrf_token) e)
        (call-Carries "application/octet-stream" api c.csrf_token p) (ap asked_by q)

  archive-PlainCall :
      (source_key : Text) (paths : List Text) → PlainCall (download_archive_call source_key paths)
  unfolding download_archive_call
  archive-PlainCall source_key paths = of (encode_uri_component source_key)
    where
      of :
          (k : Option Text)
          → PlainCall (
              k >>= λ key.
              with_json Method.post
                (codes "/api/v1/sources/" ++ (key ++ codes "/download/archive"))
                (obj (("paths", array (items (texts_of paths))) ∷ [])))
      of none = tt
      of (some key) = refl

  get-Carries :
      (t : Option Json) (url : Text)
      → Carries t (record {
        url = url;
        method = Method.get;
        headers = ("Accept", literal "application/zip") ∷ [];
        body = none;
      })
  unfolding header
  get-Carries none url = refl
  get-Carries (some t) url = refl

  perform-Stays :
      (t : Option Json) (sent : List FetchCall) (log : List (Exchange W)) (asked : List ApiRequest)
      (r : ApiRequest) (c : Client W)
      → PlainRequest r
      → Tracks fetch t sent log asked c
      → Stays t sent r asked (perform fetch r c)
  unfolding perform run_endpoint api_fetch login fetch_me logout admin_export_system_config
  perform-Stays t sent log asked (by_api_fetch e) c p h = of e.call refl p
    where
      of :
          (o : Option ApiCall)
          → e.call ≡ o
          → PlainCall o
          → Stays t sent (by_api_fetch e) asked (run_call fetch e.result o c).0
      of none q p = (log, rw q h)
      of (some call) q p =
          perform-sent t sent log asked (by_api_fetch e) c _
            (fetch_call "application/json" call c.csrf_token) h refl refl
            (call-Carries "application/json" call c.csrf_token p) (ap asked_by q)
  perform-Stays t sent log asked (sign_in username password) c p h =
      auth-Stays t sent log asked (sign_in username password) c (login_api username password) refl
        refl (λ a u. refl) h
  perform-Stays t sent log asked own_user c p h =
      auth-Stays t sent log asked own_user c me_api refl refl (λ a u. refl) h
  perform-Stays t sent log asked sign_out c p h =
      let call = fetch_call "application/json" logout_api c.csrf_token in
      let answer = (fetch call c.world).1 in
      let d : Client W = record c { sent = call ∷ c.sent; world = (fetch call c.world).0 } in
      let e = after_logout-token d (read_response answer) in
      perform-sent t sent log asked sign_out c _ call h e.0 e.1
        (call-Carries "application/json" logout_api c.csrf_token refl) refl
  perform-Stays t sent log asked config_export c p h =
      perform-sent t sent log asked config_export c _ _ h refl refl
        (get-Carries c.csrf_token (codes "/api/v1/admin/system/config-export")) refl
  perform-Stays t sent log asked (archive_of source_key paths) c p h =
      blob-Stays t sent log asked source_key paths c (download_archive_call source_key paths) refl
        (archive-PlainCall source_key paths) h

  run-Tracks :
      (t : Option Json) (sent : List FetchCall) (log : List (Exchange W)) (asked : List ApiRequest)
      (rs : List ApiRequest) (c : Client W)
      → All PlainRequest rs
      → Tracks fetch t sent log asked c
      → (log' : List (Exchange W)) × Tracks fetch t sent log'
          (latest_first rs asked)
          (run_all fetch rs c)
  unfolding run_all
  run-Tracks t sent log asked [] c p h = (log, h)
  run-Tracks t sent log asked (r ∷ rs) c p h =
      let (log', h') = perform-Stays t sent log asked r c p.0 h in
      run-Tracks t sent log' (noted (asked_of r) r asked) rs (perform fetch r c) p.1 h'

  -- A run of the functions of the API, login, fetchMe, logout, downloadArchive and adminExportSystemConfig
  -- included and none with headers of its own, makes one call of fetch for each of them in turn whose path can be
  -- written, and no other; such a
  -- call asks for what the function is for; unless its method is GET or HEAD, or the token counts as false, it
  -- carries the token of its time, and else none: the token that the latest answer to login or fetchMe that was
  -- read gave, the empty one after a logout that went through since then, or else the token at the start; and
  -- this is the token that the run ends with.
  pub run_all-Tracks :
      (rs : List ApiRequest) (c : Client W)
      → All PlainRequest rs
      → (log : List (Exchange W)) × Tracks fetch c.csrf_token c.sent log
          (latest_first rs [])
          (run_all fetch rs c)
  run_all-Tracks rs c p =
      run-Tracks c.csrf_token c.sent [] [] rs c p
        (record { calls = refl; requests = refl; logged = tt; token = refl })
