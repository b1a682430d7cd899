-- ===== src/FileManager/Wayfinding.antt =====
-- The breadcrumb of web/src/components/files/Breadcrumb.tsx shows the directories that were opened, and leads
-- back to each of them.
use omni_store.Common.{
  ℕ, zero, suc, ◌<◌, false, List, [], ◌∷◌, ◌++◌, append-nil, append_assoc, keep, length, take, ◌==◌,
  if_split, All, All-append, ◌≡◌, ◌≢◌, refl, sym, ap, ◌∙◌, arith, length-append,
}
use omni_store.Texts.{Text, slash, text_eq, text_eq_iff}
use omni_store.Api.Shares.{is_filled, join_slashes, names_of}
use omni_store.Uri.Target.{pieces}
use omni_store.Uri.Reading.{Free, pieces-Free, pieces-append}
use omni_store.FilePaths.Laws.{IsName, NoSlash, root, last_index_of-append, take-append}
use omni_store.FileManager.Actions.{entry_path}
use omni_store.FileManager.Navigation.{
  Location, go_to, or_root, up_path, up_one, path_segments, crumb_link,
}

-- The page after directories were opened one after the other.
abbrev pub open_all : List Text → Location → Location
open_all [] l = l
open_all (n ∷ ns) l = open_all ns (go_to n l)

-- The path of the directories with these names, one in the other.
abbrev pub path_of : List Text → Text
path_of ns = slash ∷ join_slashes ns

join_slashes-append :
    (ns : List Text) (n : Text)
    → ns ≢ []
    → join_slashes (ns ++ (n ∷ [])) ≡ join_slashes ns ++ (slash ∷ n)
unfolding join_slashes
join_slashes-append [] n h = absurd (h refl)
join_slashes-append (m ∷ []) n h = refl
join_slashes-append (m ∷ k ∷ ns) n h =
    ap (λ r. m ++ (slash ∷ r)) (join_slashes-append (k ∷ ns) n (λ e. cc))
    ∙ sym (append_assoc m (slash ∷ join_slashes (k ∷ ns)) (slash ∷ n))

join_slashes-some : (n : Text) (ns : List Text) → n ≢ [] → join_slashes (n ∷ ns) ≢ []
unfolding join_slashes
join_slashes-some [] ns h = absurd (h refl)
join_slashes-some (c ∷ n) [] h = λ e. cc
join_slashes-some (c ∷ n) (m ∷ ns) h = λ e. cc

text_eq-other : (s t : Text) → s ≢ t → text_eq s t ≡ false
text_eq-other s t h = ground (arith, text_eq_iff s t)

path-below_root : (n : Text) (ns : List Text) → IsName n → text_eq (path_of (n ∷ ns)) root ≡ false
path-below_root n ns h =
    text_eq-other (path_of (n ∷ ns)) root (λ e. join_slashes-some n ns h.0 (ground arith))

entry_path-path_of :
    (ns : List Text) (n : Text)
    → All IsName ns
    → entry_path (path_of ns) n ≡ path_of (ns ++ (n ∷ []))
unfolding join_slashes
entry_path-path_of [] n h = unfold text_eq in refl
entry_path-path_of (m ∷ ns) n h =
    rw (path-below_root m ns h.0)
      (ap (λ r. slash ∷ r) (sym (join_slashes-append (m ∷ ns) n (λ e. cc))))

-- Opening directories from a place leads to the path of all their names.
open_all-path :
    (ms ns : List Text) (l : Location)
    → All IsName ms
    → All IsName ns
    → l.path ≡ path_of ms
    → (open_all ns l).path ≡ path_of (ms ++ ns)
unfolding go_to
open_all-path ms [] l h k e = e ∙ ap path_of (sym (append-nil ms))
open_all-path ms (n ∷ ns) l h k e =
    open_all-path (ms ++ (n ∷ [])) ns (go_to n l) (All-append IsName ms (n ∷ []) h (k.0, tt)) k.1
      (ap (λ p. entry_path p n) e ∙ entry_path-path_of ms n h)
    ∙ ap path_of (append_assoc ms (n ∷ []) ns)

keep-IsName : (ns : List Text) → All IsName ns → keep is_filled ns ≡ ns
keep-IsName [] h = refl
keep-IsName ([] ∷ ns) h = absurd (h.0.0 refl)
keep-IsName ((c ∷ n) ∷ ns) h = ap (λ r. (c ∷ n) ∷ r) (keep-IsName ns h.1)

NoSlash-Free : (n : Text) → NoSlash n → Free slash n
NoSlash-Free [] h = tt
NoSlash-Free (c ∷ n) h = (h.0, NoSlash-Free n h.1)

pieces-join_slashes :
    (n : Text) (ns : List Text)
    → All IsName (n ∷ ns)
    → pieces slash (join_slashes (n ∷ ns)) ≡ n ∷ ns
unfolding pieces join_slashes
pieces-join_slashes n [] h = pieces-Free slash n (NoSlash-Free n h.0.1)
pieces-join_slashes n (m ∷ ns) h =
    pieces-append slash n (join_slashes (m ∷ ns)) (NoSlash-Free n h.0.1)
    ∙ ap (λ r. n ∷ r) (pieces-join_slashes m ns h.1)

-- The breadcrumb shows the names.
path_segments-path_of : (ns : List Text) → All IsName ns → path_segments (path_of ns) ≡ ns
unfolding path_segments names_of pieces join_slashes
path_segments-path_of [] h = unfold text_eq in refl
path_segments-path_of (n ∷ ns) h =
    rw (path-below_root n ns h.0, pieces-join_slashes n ns h) (keep-IsName (n ∷ ns) h)

length-some : (n : Text) → n ≢ [] → 0 < length n
length-some [] h = absurd (h refl)
length-some (c ∷ n) h = omega arith

-- One directory up from a path that ends with a name.
up_path-append : (p n : Text) → IsName n → up_path (p ++ (slash ∷ n)) ≡ or_root p
unfolding up_path
up_path-append p n h = rw (last_index_of-append p n h.1) (
    if_split (λ (r : Text). or_root r ≡ or_root p) (length (p ++ (slash ∷ n)) == suc (length p))
      (λ e. absurd (ground (arith, e, length-append p (slash ∷ n), length-some n h.0)))
      (λ e. ap or_root (take-append p (slash ∷ n))))

up_path-path_of :
    (ns : List Text) (n : Text) → IsName n → up_path (path_of (ns ++ (n ∷ []))) ≡ path_of ns
unfolding join_slashes
up_path-path_of [] n h = up_path-append [] n h
up_path-path_of (m ∷ ns) n h =
    ap (λ r. up_path (slash ∷ r)) (join_slashes-append (m ∷ ns) n (λ e. cc))
    ∙ up_path-append (path_of (m ∷ ns)) n h

All-IsName-take : (k : ℕ) (ns : List Text) → All IsName ns → All IsName (take k ns)
All-IsName-take zero ns h = tt
All-IsName-take (suc k) [] h = tt
All-IsName-take (suc k) (n ∷ ns) h = (h.0, All-IsName-take k ns h.1)

-- What the page offers after the directories `ns` were opened from `l`.
pub record FindsBack (ns : List Text) (n : Text) (i : ℕ) (l : Location) : Type 0 where
  pub shown : path_segments (open_all ns l).path ≡ ns
  pub link : crumb_link i (path_segments (open_all ns l).path) ≡ (open_all (take (suc i) ns) l).path
  pub up : (up_one (open_all (ns ++ (n ∷ [])) l)).path ≡ (open_all ns l).path

-- After directories were opened one after the other from the root, the breadcrumb shows just their names;
-- the link of each leads to the path that was reached by opening the directories up to it; and from a
-- directory opened next, going one up leads back.
pub open_all-FindsBack :
    (ns : List Text) (n : Text) (i : ℕ) (l : Location)
    → All IsName ns
    → IsName n
    → l.path ≡ root
    → FindsBack ns n i l
unfolding up_one crumb_link
open_all-FindsBack ns n i l h k e =
    let here = open_all-path [] ns l tt h e in
    let names = ap path_segments here ∙ path_segments-path_of ns h in
    record {
      shown = names;
      link =
          ap (λ segs. crumb_link i segs) names
          ∙ sym (open_all-path [] (take (suc i) ns) l tt (All-IsName-take (suc i) ns h) e);
      up =
          ap up_path
            (open_all-path [] (ns ++ (n ∷ [])) l tt (All-append IsName ns (n ∷ []) h (k, tt)) e)
          ∙ up_path-path_of ns n k
          ∙ sym here;
    }
