-- ===== src/Api/Logout.antt =====
-- What the functions of web/src/api send after a logout.
use mathlib.Core.Path.{subst}
use omni_store.Common.{
  Bool, true, false, Option, none, some, List, [], ◌∷◌, ◌++◌, map, ◌≡◌, refl, ap, sym, ◌∙◌, All,
}
use omni_store.Texts.{Text}
use omni_store.Api.Json.{Json, truthy}
use omni_store.Api.Client.{
  Method, FetchCall, Response, Outcome, returned, refused, threw, Client, set_csrf_token, header,
  read_response,
}
use omni_store.Api.Calls.{run_endpoint}
use omni_store.Api.Account.{logout, logout_call, after_logout}
use omni_store.Api.Session.{
  ApiRequest, by_api_fetch, sign_in, own_user, sign_out, config_export, archive_of, run_all,
}
use omni_store.Api.TokenLog.{
  PlainRequest, asked_of, noted, latest_first, empty_token, emptied, granted, Exchange, session,
  Logged,
}
use omni_store.Api.TokenHeader.{token_header}
use omni_store.Api.Tokens.{run_all-Tracks}

-- The token that a logout leaves is sent with no call.
abbrev pub Quiet : FetchCall → Type 0
Quiet r = header "X-CSRF-Token" r.headers ≡ none

no_header : (m : Method) → token_header m empty_token ≡ none
unfolding truthy
no_header Method.get = refl
no_header Method.head = refl
no_header Method.post = refl
no_header Method.put = refl
no_header Method.patch = refl
no_header Method.delete = refl

-- The functions that ask for a token.
abbrev pub signs_in : ApiRequest → Bool
signs_in (sign_in username password) = true
signs_in own_user = true
signs_in _ = false

abbrev SignedOut : ApiRequest → Type 0
SignedOut r = signs_in r ≡ false

emptied-empty : (o : Outcome (Option Json)) → emptied o empty_token ≡ empty_token
emptied-empty (returned v) = refl
emptied-empty (refused e) = refl
emptied-empty threw = refl

granted-empty :
    (r : ApiRequest) (a : Option Response) → SignedOut r → granted r a empty_token ≡ empty_token
granted-empty (by_api_fetch e) a h = refl
granted-empty (sign_in username password) a h = cc h
granted-empty own_user a h = cc h
granted-empty sign_out a h = emptied-empty (read_response a)
granted-empty config_export a h = refl
granted-empty (archive_of source_key paths) a h = refl

latest_first-SignedOut :
    (rs asked : List ApiRequest)
    → All SignedOut rs
    → All SignedOut asked
    → All SignedOut (latest_first rs asked)
latest_first-SignedOut [] asked h k = k
latest_first-SignedOut (r ∷ rs) asked h k = latest_first-SignedOut rs _ h.1 (of (asked_of r))
  where
    of : (o : Option (Method × Text)) → All SignedOut (noted o r asked)
    of none = k
    of (some a) = (h.0, k)

module _ {W : Type 0} (fetch : FetchCall → W → W × Option Response) where
  session-empty :
      (log : List (Exchange W))
      → All SignedOut (map (λ (x : Exchange W). x.request) log)
      → session empty_token log ≡ empty_token
  session-empty [] h = refl
  session-empty (x ∷ log) h =
      ap (λ u. granted x.request x.answer u) (session-empty log h.1)
      ∙ granted-empty x.request x.answer h.0

  log-Quiet :
      (log : List (Exchange W))
      → All SignedOut (map (λ (x : Exchange W). x.request) log)
      → Logged fetch empty_token log
      → All Quiet (map (λ (x : Exchange W). x.call) log)
  log-Quiet [] h l = tt
  log-Quiet (x ∷ log) h l = (
    l.0.carries
        ∙ ap (λ u. token_header x.call.method u) (session-empty log h.1)
        ∙ no_header x.call.method,
    log-Quiet log h.1 l.1,
  )

  logged_out :
      (p : Client W × Outcome (Option Json)) (c' : Client W) (v : Option Json)
      → after_logout p ≡ (c', returned v)
      → c'.csrf_token ≡ empty_token
  unfolding set_csrf_token
  logged_out (d, returned w) c' v h =
      sym (ap (λ (q : Client W × Outcome (Option Json)). q.0.csrf_token) h)
  logged_out (d, refused e) c' v h = cc h
  logged_out (d, threw) c' v h = cc h

  -- After a logout that went through, no call that a run of the functions of the API makes carries a token, as
  -- long as neither login nor fetchMe is among them and none sets headers of its own.
  pub logout-Quiet :
      (rs : List ApiRequest) (c c' : Client W) (v : Option Json)
      → logout fetch c ≡ (c', returned v)
      → All PlainRequest rs
      → All (λ r. signs_in r ≡ false) rs
      → (new : List FetchCall) × ((run_all fetch rs c').sent ≡ new ++ c'.sent) × All Quiet new
  unfolding logout
  logout-Quiet rs c c' v out p h =
      let (log, tracks) = run_all-Tracks fetch rs c' p in
      let gone = logged_out (run_endpoint fetch logout_call c) c' v out in
      let signed =
        subst (All SignedOut) (sym tracks.requests) (latest_first-SignedOut rs [] h tt) in
      (
        map (λ (x : Exchange W). x.call) log,
        tracks.calls,
        log-Quiet log signed (subst (λ u. Logged fetch u log) gone tracks.logged),
      )
