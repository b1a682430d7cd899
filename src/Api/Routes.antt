-- ===== src/Api/Routes.antt =====
-- How a server reads the call of an endpoint, and what it is to read it as.
use Prim.Native.String.{String}
use omni_store.Common.{
  ℕ, Bool, true, false, Option, none, some, List, [], ◌∷◌, ◌++◌, map, any, if◌then◌else◌, ◌≡◌, refl,
  ap, sym, ◌∙◌, arith, All, append-nil,
}
use omni_store.Texts.{Text, text_eq}
use omni_store.Uri.Bytes.{codes, utf8, usv, utf8-usv, usv-IsByte, IsByte}
use omni_store.Uri.Escape.{percent, encode_uri_component}
use omni_store.Uri.Query.{Params, params_text, named, set_param, set_when}
use omni_store.Uri.Target.{Target, read_target}
use omni_store.Uri.Decimal.{decimal, percent-decimal, decimal-IsByte}
use omni_store.Uri.Reading.{
  Segments, path_text, read_target-path, read_target-query, IsRead, pairs, written,
  all_written-IsRead, params_text-joined, component-IsRead,
}
use omni_store.Api.Client.{Method, ApiCall, method_or_get}
use omni_store.Api.Calls.{◌>>=◌, Endpoint}

-- A request as a server sees it: its method, the segments of its path and the pairs of its query.
pub record Route : Type 0 where
  pub method : Method
  pub segments : Segments
  pub query : List (List ℕ × List ℕ)

abbrev pub routed_as : Method → Target → Option Route
routed_as m t = some (record { method = m; segments = t.segments; query = t.query })

abbrev pub route_call : ApiCall → Option Route
route_call c = read_target c.path >>= routed_as (method_or_get c.method)

abbrev pub route_of : Endpoint → Option Route
route_of e = e.call >>= route_call

-- The parts of the path that an endpoint means: words, strings and numbers.
pub data Part : Type 0 where
  word : String → Part
  arg : Text → Part
  num : ℕ → Part

-- What follows the bytes of the parts; there are none for a string with a surrogate that stands alone.
unfoldable pub with_segments : {A : Type 0} → List Part → (Segments → Option A) → Option A
with_segments [] k = k []
with_segments (word s ∷ ps) k = with_segments ps (λ bs. k (codes s ∷ bs))
with_segments (num n ∷ ps) k = with_segments ps (λ bs. k (decimal n ∷ bs))
with_segments (arg s ∷ ps) k = utf8 s >>= λ b. with_segments ps (λ bs. k (b ∷ bs))

abbrev pub usv_pair : Text × Text → List ℕ × List ℕ
usv_pair (n, v) = (usv n, usv v)

abbrev pub switch_word : Bool → String
switch_word disabled = if disabled then "disable" else "enable"

-- A route under /api/v1 with no query.
abbrev pub meant_from : Method → Segments → Option Route
meant_from m bs = some (record { method = m; segments = codes "api" ∷ codes "v1" ∷ bs; query = [] })

-- The route that an endpoint means, under /api/v1.
unfoldable pub meant : Method → List Part → Params → Option Route
unfolding with_segments
meant m parts query = with_segments parts (λ bs.
    some
      (record { method = m; segments = codes "api" ∷ codes "v1" ∷ bs; query = map usv_pair query }))

-- An argument of encodeURIComponent is read back as its UTF-8 bytes.
pub with_component :
    {A B : Type 0} (f : Text → Option A) (r : A → Option B) (g : List ℕ → Option B)
    → ((b : List ℕ) → All IsByte b → (f (percent b) >>= r) ≡ g b)
    → (s : Text) → ((encode_uri_component s >>= f) >>= r) ≡ (utf8 s >>= g)
unfolding encode_uri_component
with_component f r g h s = split (utf8 s) refl
  where
    split :
        (o : Option (List ℕ))
        → utf8 s ≡ o
        → ((elim o [ none ↦ none | some bs ↦ some (percent bs) ] >>= f) >>= r) ≡ (o >>= g)
    split none e = refl
    split (some b) e = h b (rw (sym (utf8-usv s b e)) (usv-IsByte s))

pairs-written : (ps : Params) → pairs (map written ps) ≡ map usv_pair ps
pairs-written [] = refl
pairs-written (p ∷ ps) = ap (λ l. usv_pair p ∷ l) (pairs-written ps)

v1-IsByte : (bs : Segments) → All (All IsByte) bs → All (All IsByte) (codes "api" ∷ codes "v1" ∷ bs)
v1-IsByte bs h = (omega arith, (omega arith, h))

module _ (m : Method) where
  -- A path with no query.
  pub path_route :
      (bs : Segments)
      → All (All IsByte) bs
      → (read_target (path_text (codes "api" ∷ codes "v1" ∷ bs) []) >>= routed_as m)
        ≡ some (record { method = m; segments = codes "api" ∷ codes "v1" ∷ bs; query = [] })
  path_route bs h =
      ap (λ t. t >>= routed_as m)
        (read_target-path (codes "api") (codes "v1" ∷ bs) (v1-IsByte bs h))

  -- A path with the query of a URLSearchParams.
  pub query_route :
      (bs : Segments) (params ps : Params) (p : Text × Text)
      → params ≡ p ∷ ps
      → All (All IsByte) bs
      → (read_target (path_text (codes "api" ∷ codes "v1" ∷ bs) (b'?' ∷ params_text params))
          >>= routed_as m)
        ≡ some (record {
          method = m;
          segments = codes "api" ∷ codes "v1" ∷ bs;
          query = map usv_pair (p ∷ ps);
        })
  query_route bs params ps p e h =
      ap (λ q. read_target (path_text (codes "api" ∷ codes "v1" ∷ bs) (b'?' ∷ q)) >>= routed_as m)
        (ap params_text e ∙ params_text-joined (p ∷ ps))
      ∙ ap (λ t. t >>= routed_as m)
          (read_target-query (codes "api") (codes "v1" ∷ bs) (written p) (map written ps)
            (v1-IsByte bs h) (all_written-IsRead (p ∷ ps)))
      ∙ ap (λ q. some (record { method = m; segments = codes "api" ∷ codes "v1" ∷ bs; query = q }))
          (pairs-written (p ∷ ps))

-- A pair that a condition adds.
abbrev pub optional : Bool → Text → Text → Params
optional given name value = if given then (name, value) ∷ [] else []

abbrev pub Absent : Text → Params → Type 0
Absent name ps = any (named name) ps ≡ false

pub Absent-optional :
    (name : Text) (ps : Params) (given : Bool) (n v : Text)
    → Absent name ps
    → text_eq n name ≡ false
    → Absent name (ps ++ optional given n v)
Absent-optional name [] true n v h e = ground (arith, e)
Absent-optional name [] false n v h e = h
Absent-optional name (p ∷ ps) given n v h e =
    ground (arith, h, Absent-optional name ps given n v (ground (arith, h)) e)

-- Setting a name that is not there yet adds a pair at the end.
pub set_when-optional :
    (given : Bool) (name value : Text) (ps ps' : Params)
    → ps ≡ ps'
    → Absent name ps'
    → set_when given name value ps ≡ ps' ++ optional given name value
unfolding set_param
set_when-optional true name value ps ps' e h = rw e (ground (arith, h))
set_when-optional false name value ps ps' e h = e ∙ sym (append-nil ps')

-- A route whose query is one pair, of a value that encodeURIComponent encodes.
unfoldable pub meant_component : Method → List Part → String → Text → Option Route
unfolding with_segments
meant_component m parts name value = with_segments parts (λ bs. utf8 value >>= λ v.
    some (record {
      method = m;
      segments = codes "api" ∷ codes "v1" ∷ bs;
      query = (codes name, v) ∷ [];
    }))

path-IsRead : (b : List ℕ) → All IsByte b → IsRead (codes "path=" ++ percent b, (codes "path", b))
path-IsRead b h = component-IsRead b h

pub path_component_route :
    (m : Method) (bs : Segments) (b : List ℕ)
    → All (All IsByte) bs
    → All IsByte b
    → (read_target (path_text (codes "api" ∷ codes "v1" ∷ bs) (b'?' ∷ (codes "path=" ++ percent b)))
        >>= routed_as m)
      ≡ some (record {
        method = m;
        segments = codes "api" ∷ codes "v1" ∷ bs;
        query = (codes "path", b) ∷ [];
      })
path_component_route m bs b h hb =
    ap (λ t. t >>= routed_as m)
      (read_target-query (codes "api") (codes "v1" ∷ bs)
        (codes "path=" ++ percent b, (codes "path", b)) [] (v1-IsByte bs h) (path-IsRead b hb, tt))

-- A number in a path is read back as its digits.
pub with_number :
    {A B : Type 0} (f : Text → Option A) (r : A → Option B) (g : List ℕ → Option B)
    → ((b : List ℕ) → All IsByte b → (f (percent b) >>= r) ≡ g b)
    → (n : ℕ) → (f (decimal n) >>= r) ≡ g (decimal n)
with_number f r g h n =
    ap (λ t. f t >>= r) (sym (percent-decimal n)) ∙ h (decimal n) (decimal-IsByte n)
