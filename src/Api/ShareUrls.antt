-- ===== src/Api/ShareUrls.antt =====
-- How the URLs of the files of a share are read: publicShareRawUrl of web/src/api/shares.ts.
use omni_store.Common.{
  ℕ, Bool, true, false, Option, none, some, List, [], ◌∷◌, ◌++◌, map, if_ind, ◌≡◌, refl, sym, ap,
  ◌∙◌, arith, All,
}
use omni_store.Texts.{Text}
use omni_store.Uri.Bytes.{codes, utf8, is_nil}
use omni_store.Uri.Escape.{percent, encode_uri_component, encode_all, component_byte, is_unreserved}
use omni_store.Uri.Target.{read_all}
use omni_store.Uri.Reading.{Segments, path_text, then_text}
use omni_store.Api.Client.{Method}
use omni_store.Api.Calls.{◌>>=◌}
use omni_store.Api.Routes.{Route, with_component}
use omni_store.Api.Shares.{
  is_filled, join_slashes, names_of, below, download_suffix, public_share_raw_url,
}
use omni_store.Api.RawUrls.{
  percents, encode_each-percents, all-IsByte, names_filled, all_filled, path_text-join_slashes,
  download_pair, suffix_route, read_url,
}

filled-append : (t u : Text) → is_filled t ≡ true → is_filled (t ++ u) ≡ true
filled-append [] u h = cc h
filled-append (c ∷ t) u h = refl

percent_filled : (b : List ℕ) → is_nil b ≡ false → is_filled (percent b) ≡ true
unfolding percent encode_all is_unreserved
percent_filled [] h = cc h
percent_filled (c ∷ b) h =
    filled-append (component_byte c) (percent b)
      (if_ind (λ (t : Text). is_filled t ≡ true) (is_unreserved c) refl refl)

joined_filled :
    (b : List ℕ) (bs : Segments)
    → is_nil b ≡ false
    → is_filled (join_slashes (map percent (b ∷ bs))) ≡ true
unfolding join_slashes
joined_filled b [] h = percent_filled b h
joined_filled b (d ∷ ds) h =
    filled-append (percent b) (b'/' ∷ join_slashes (map percent (d ∷ ds))) (percent_filled b h)

below_filled : (t : Text) → is_filled t ≡ true → below t ≡ b'/' ∷ t
below_filled [] h = cc h
below_filled (c ∷ t) h = refl

share_path :
    (k : List ℕ) (bs : Segments) (q : Text)
    → All (λ b. is_nil b ≡ false) bs
    → codes "/share/"
        ++ (percent k ++ (codes "/raw" ++ (below (join_slashes (map percent bs)) ++ q)))
      ≡ path_text (codes "share" ∷ k ∷ codes "raw" ∷ bs) q
unfolding path_text percent encode_all join_slashes
share_path k [] [] h = refl
share_path k [] (c ∷ q) h = refl
share_path k (b ∷ bs) q h =
    ap (λ t. codes "/share/" ++ (percent k ++ (codes "/raw" ++ (t ++ q))))
      (below_filled (join_slashes (map percent (b ∷ bs))) (joined_filled b bs h.0))
    ∙ ap (λ t. codes "/share/" ++ (percent k ++ (b'/' ∷ then_text (percent (codes "raw")) t)))
        (sym (path_text-join_slashes b bs q))

-- What a URL of a file of a share means: the key, and the bytes of the names of the path, one segment
-- for each.
unfoldable pub share_meant : Text → Text → Bool → Option Route
unfolding read_all
share_meant key path download = read_all utf8 (names_of path) >>= λ bs. utf8 key >>= λ k.
    some (record {
      method = Method.get;
      segments = codes "share" ∷ k ∷ codes "raw" ∷ bs;
      query = download_pair download;
    })

abbrev url_below : Text → Bool → List Text → Option Text
url_below key download e = encode_uri_component key >>= λ k. some (
    codes "/share/"
    ++ (k ++ (codes "/raw" ++ (below (join_slashes e) ++ download_suffix download))))

-- A URL of a file of a share is read as the bytes of the key and one segment for each name of the path,
-- with the bytes of that name, and as asking for a download exactly when it is to; with a surrogate
-- that stands alone in the key or a name there is no URL.
pub public_share_raw_url_route :
    (key path : Text) (download : Bool)
    → (public_share_raw_url key path download >>= read_url) ≡ share_meant key path download
unfolding public_share_raw_url share_meant
public_share_raw_url_route key path download =
    ap (λ (o : Option (List Text)). (o >>= url_below key download) >>= read_url)
      (encode_each-percents (names_of path))
    ∙ split (read_all utf8 (names_of path)) refl
  where
    split :
        (o : Option Segments)
        → read_all utf8 (names_of path) ≡ o
        → ((percents o >>= url_below key download) >>= read_url) ≡ (
            o >>= λ bs. utf8 key >>= λ k. some (record {
              method = Method.get;
              segments = codes "share" ∷ k ∷ codes "raw" ∷ bs;
              query = download_pair download;
            }))
    split none e = refl
    split (some bs) e =
        with_component _ read_url _
          (λ k hk.
            ap read_url (
              share_path k bs (download_suffix download)
                (all_filled (names_of path) bs (names_filled path) e))
            ∙ suffix_route (codes "share") (k ∷ codes "raw" ∷ bs) download
                (omega arith, (hk, (omega arith, all-IsByte (names_of path) bs e))))
          key
