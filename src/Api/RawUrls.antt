-- ===== src/Api/RawUrls.antt =====
-- How the URLs of shared and public files are read: rawUrl and publicShareRawUrl of web/src/api.
use omni_store.Common.{
  ℕ, Bool, true, false, Option, none, some, List, [], ◌∷◌, ◌++◌, map, keep, if◌then◌else◌,
  Option-cases, inl, inr, ◌≡◌, refl, sym, ap, ◌∙◌, arith, All, append-nil, append_assoc,
}
use omni_store.Texts.{Text}
use omni_store.Uri.Bytes.{codes, utf8, utf8-usv, usv-IsByte, IsByte, is_nil, utf8_filled}
use omni_store.Uri.Escape.{unescape, percent, encode_uri_component, encode_all}
use omni_store.Uri.Target.{cut, read_target, read_all, cons_some, pieces}
use omni_store.Uri.Reading.{
  Segments, path_text, then_text, read_target-path, read_target-query, IsRead,
}
use omni_store.Api.Client.{Method}
use omni_store.Api.Calls.{◌>>=◌}
use omni_store.Api.Routes.{Route, routed_as}
use omni_store.Api.Shares.{is_filled, encode_each, join_slashes, names_of, download_suffix, raw_url}

abbrev pub percents : Option Segments → Option (List Text)
percents none = none
percents (some bs) = some (map percent bs)

-- The names are encoded one by one.
pub encode_each-percents : (ts : List Text) → encode_each ts ≡ percents (read_all utf8 ts)
unfolding encode_each read_all
encode_each-percents [] = refl
encode_each-percents (t ∷ ts) =
    ap (λ (o : Option (List Text)). encode_uri_component t >>= λ e. o >>= λ es. some (e ∷ es))
      (encode_each-percents ts)
    ∙ split (utf8 t) (read_all utf8 ts)
  where
    split :
        (a : Option (List ℕ)) (b : Option Segments)
        → (elim a [ none ↦ none | some bs ↦ some (percent bs) ] >>= λ e.
            percents b >>= λ es. some (e ∷ es))
          ≡ percents (cons_some a b)
    split none b = refl
    split (some a) none = refl
    split (some a) (some b) = refl

pub utf8-IsByte : (s : Text) (b : List ℕ) → utf8 s ≡ some b → All IsByte b
utf8-IsByte s b e = rw (sym (utf8-usv s b e)) (usv-IsByte s)

pub all-IsByte : (ts : List Text) (bs : Segments) → read_all utf8 ts ≡ some bs → All (All IsByte) bs
unfolding read_all
all-IsByte [] [] h = tt
all-IsByte [] (b ∷ bs) h = cc h
all-IsByte (t ∷ ts) bs h = elim (Option-cases (utf8 t)) [
  | inl e ↦ ground (arith, h, e)
  | inr (b, e) ↦ elim (Option-cases (read_all utf8 ts)) [
    | inl f ↦ ground (arith, h, e, f)
    | inr (cs, f) ↦
        let same : b ∷ cs ≡ bs = ground (arith, h, e, f) in
        rw (sym same) (utf8-IsByte t b e, all-IsByte ts cs f)
  ]
]

-- No name is empty, so none is encoded as nothing.
abbrev pub AllFilled : List Text → Type 0
AllFilled ts = All (λ t. is_filled t ≡ true) ts

keep-filled : (ts : List Text) → AllFilled (keep is_filled ts)
keep-filled [] = tt
keep-filled ([] ∷ ts) = keep-filled ts
keep-filled ((c ∷ s) ∷ ts) = (refl, keep-filled ts)

pub names_filled : (path : Text) → AllFilled (names_of path)
unfolding names_of
names_filled path = keep-filled (pieces b'/' path)

pub all_filled :
    (ts : List Text) (bs : Segments)
    → AllFilled ts
    → read_all utf8 ts ≡ some bs
    → All (λ b. is_nil b ≡ false) bs
unfolding read_all
all_filled [] [] n h = tt
all_filled [] (b ∷ bs) n h = cc h
all_filled ([] ∷ ts) bs n h = cc (n.0)
all_filled ((c ∷ s) ∷ ts) bs n h = elim (Option-cases (utf8 (c ∷ s))) [
  | inl e ↦ ground (arith, h, e)
  | inr (b, e) ↦ elim (Option-cases (read_all utf8 ts)) [
    | inl f ↦ ground (arith, h, e, f)
    | inr (cs, f) ↦
        let same : b ∷ cs ≡ bs = ground (arith, h, e, f) in
        rw (sym same) (utf8_filled c s b e, all_filled ts cs n.1 f)
  ]
]

-- The names of a path as the segments of a path.
pub path_text-join_slashes :
    (b : List ℕ) (bs : Segments) (q : Text)
    → path_text (b ∷ bs) q ≡ b'/' ∷ (join_slashes (map percent (b ∷ bs)) ++ q)
unfolding path_text join_slashes
path_text-join_slashes b [] [] = ap (λ t. b'/' ∷ t) (sym (append-nil (percent b)))
path_text-join_slashes b [] (c ∷ q) = refl
path_text-join_slashes b (d ∷ ds) q =
    ap (λ t. b'/' ∷ then_text (percent b) t) (path_text-join_slashes d ds q)
    ∙ ap (λ t. b'/' ∷ t)
        (sym (append_assoc (percent b) (b'/' ∷ join_slashes (map percent (d ∷ ds))) q))

-- The pair that asks for a download.
abbrev pub download_pair : Bool → List (List ℕ × List ℕ)
download_pair download = if download then (codes "download", codes "1") ∷ [] else []

download-IsRead : IsRead (codes "download=1", (codes "download", codes "1"))
unfolding cut unescape
download-IsRead = (omega arith, refl)

pub suffix_route :
    (b : List ℕ) (bs : Segments) (download : Bool)
    → All (All IsByte) (b ∷ bs)
    → (read_target (path_text (b ∷ bs) (download_suffix download)) >>= routed_as Method.get)
      ≡ some (record { method = Method.get; segments = b ∷ bs; query = download_pair download })
suffix_route b bs true h =
    ap (λ t. t >>= routed_as Method.get)
      (read_target-query b bs (codes "download=1", (codes "download", codes "1")) [] h
        (download-IsRead, tt))
suffix_route b bs false h = ap (λ t. t >>= routed_as Method.get) (read_target-path b bs h)

-- The segments of a path of the public drive: one for each name, or an empty one.
abbrev pub or_blank : Segments → Segments
or_blank [] = [] ∷ []
or_blank (b ∷ bs) = b ∷ bs

-- What a URL of the public drive means: the bytes of the names of the path, one segment for each.
unfoldable pub raw_meant : Text → Bool → Option Route
unfolding read_all
raw_meant path download = read_all utf8 (names_of path) >>= λ bs. some (record {
  method = Method.get;
  segments = codes "public" ∷ codes "raw" ∷ or_blank bs;
  query = download_pair download;
})

raw_path :
    (bs : Segments) (q : Text)
    → codes "/public/raw/" ++ (join_slashes (map percent bs) ++ q)
      ≡ path_text (codes "public" ∷ codes "raw" ∷ or_blank bs) q
unfolding path_text percent encode_all join_slashes
raw_path [] [] = refl
raw_path [] (c ∷ q) = refl
raw_path (b ∷ bs) q =
    ap
      (λ t.
        b'/' ∷ then_text (percent (codes "public")) (b'/' ∷ then_text (percent (codes "raw")) t))
      (sym (path_text-join_slashes b bs q))

abbrev pub read_url : Text → Option Route
read_url t = read_target t >>= routed_as Method.get

blank-IsByte : (bs : Segments) → All (All IsByte) bs → All (All IsByte) (or_blank bs)
blank-IsByte [] h = (tt, tt)
blank-IsByte (b ∷ bs) h = h

-- A URL of the public drive is read as one segment for each name of the path, with the bytes of that name,
-- and as asking for a download exactly when it is to; with a surrogate that stands alone in a name
-- there is no URL.
pub raw_url_route :
    (path : Text) (download : Bool) → (raw_url path download >>= read_url) ≡ raw_meant path download
unfolding raw_url raw_meant
raw_url_route path download =
    ap
      (λ (o : Option (List Text)).
        (o >>= λ e. some (codes "/public/raw/" ++ (join_slashes e ++ download_suffix download)))
        >>= read_url)
      (encode_each-percents (names_of path))
    ∙ split (read_all utf8 (names_of path)) refl
  where
    split :
        (o : Option Segments)
        → read_all utf8 (names_of path) ≡ o
        → ((percents o >>= λ e.
              some (codes "/public/raw/" ++ (join_slashes e ++ download_suffix download)))
            >>= read_url)
          ≡ (o >>= λ bs. some (record {
            method = Method.get;
            segments = codes "public" ∷ codes "raw" ∷ or_blank bs;
            query = download_pair download;
          }))
    split none e = refl
    split (some bs) e =
        ap read_url (raw_path bs (download_suffix download))
        ∙ suffix_route (codes "public") (codes "raw" ∷ or_blank bs) download
            (omega arith, (omega arith, blank-IsByte bs (all-IsByte (names_of path) bs e)))
