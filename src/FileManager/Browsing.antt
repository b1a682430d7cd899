-- ===== src/FileManager/Browsing.antt =====
-- What web/src/pages/FileManager.tsx opens in the layer of web/src/preview/PreviewModal.tsx, and where its keys lead.
use mathlib.Core.Path.{subst}
use mathlib.Core.Option.{get_or}
use omni_store.Common.{
  ℕ, zero, suc, ◌<◌, Bool, true, false, Option, none, some, List, [], ◌∷◌, get_elem?, keep, length,
  ◌≡◌, refl, sym, ap, ◌∙◌, arith, Bool-cases, inl, inr, Option-cases,
}
use omni_store.Texts.{Text, text_eq, text_eq_iff}
use omni_store.Uri.Escape.{encode_uri_component}
use omni_store.FilePaths.{join_path}
use omni_store.Api.Calls.{◌>>=◌}
use omni_store.Api.Sources.{source_raw_url}
use omni_store.Preview.Modal.{PreviewItem, PreviewState, PreviewInput, press_all}
use omni_store.Preview.Walking.{InRange, press_all-InRange, at, keys_to, keys_to-at}
use omni_store.FileManager.Defs.{FileEntry}
use omni_store.FileManager.Previews.{
  is_file, each, find_index, open_items, preview_item_for, open_preview,
}

-- The file at an index has its own item there.
abbrev pub ItemsOf : (FileEntry → Option PreviewItem) → List FileEntry → List PreviewItem → Type 0
ItemsOf f [] [] = Unit
ItemsOf f (e ∷ es) (i ∷ is) = (f e ≡ some i) × ItemsOf f es is
ItemsOf f _ _ = ⊥

module _ (f : FileEntry → Option PreviewItem) where
  each-ItemsOf :
      (es : List FileEntry)
      → ((e : FileEntry) → (i : PreviewItem) × (f e ≡ some i))
      → (is : List PreviewItem) × (each f es ≡ some is) × ItemsOf f es is
  each-ItemsOf [] h = ([], refl, tt)
  each-ItemsOf (e ∷ es) h =
      let i = h e in
      let rest = each-ItemsOf es h in (i.0 ∷ rest.0, rw (i.1, rest.1) refl, (i.1, rest.2))

  ItemsOf-get :
      (es : List FileEntry) (is : List PreviewItem) (j : ℕ) (e : FileEntry)
      → ItemsOf f es is
      → get_elem? es j ≡ some e
      → (j < length is) × (get_elem? is j ≡ f e)
  ItemsOf-get [] [] j e h g = cc
  ItemsOf-get [] (i ∷ is) j e h g = elim h [ ]
  ItemsOf-get (d ∷ es) [] j e h g = elim h [ ]
  ItemsOf-get (d ∷ es) (i ∷ is) zero e h g =
      (omega arith, (let same : d ≡ e = cc in sym h.0 ∙ ap f same))
  ItemsOf-get (d ∷ es) (i ∷ is) (suc j) e h g =
      let rest = ItemsOf-get es is j e h.1 g in (let r = rest.0 in omega arith, rest.1)

  ItemsOf-entry :
      (es : List FileEntry) (is : List PreviewItem) (j : ℕ)
      → ItemsOf f es is
      → j < length is
      → (e : FileEntry) × (get_elem? es j ≡ some e) × (get_elem? is j ≡ f e)
  ItemsOf-entry [] [] j h l = absurd (omega arith)
  ItemsOf-entry [] (i ∷ is) j h l = elim h [ ]
  ItemsOf-entry (d ∷ es) [] j h l = elim h [ ]
  ItemsOf-entry (d ∷ es) (i ∷ is) zero h l = (d, refl, sym h.0)
  ItemsOf-entry (d ∷ es) (i ∷ is) (suc j) h l = ItemsOf-entry es is j h.1 (omega arith)

-- An element that is kept is still there.
keep-get {ℓ} :
    {A : Type ℓ} (p : A → Bool) (xs : List A) (n : ℕ) (x : A)
    → get_elem? xs n ≡ some x
    → p x ≡ true
    → (j : ℕ) × (get_elem? (keep p xs) j ≡ some x)
keep-get p [] n x g h = cc
keep-get p (y ∷ xs) zero x g h =
    (0, (let same : y ≡ x = cc in let e : p y ≡ true = ap p same ∙ h in rw e g))
keep-get p (y ∷ xs) (suc n) x g h =
    let rest = keep-get p xs n x g h in
    elim (Bool-cases (p y)) [
      | inl e ↦ (suc rest.0, rw e (rest.1))
      | inr e ↦ (rest.0, rw e (rest.1))
    ]

-- The index of a name is that of an item with this name.
abbrev FoundAt : Text → List PreviewItem → Type 0
FoundAt name is =
    (k : ℕ) × (x : PreviewItem) × (find_index name is ≡ some k)
    × (get_elem? is k ≡ some x)
    × (x.name ≡ name)

find_index-later :
    (name : Text) (y : PreviewItem) (is : List PreviewItem)
    → text_eq y.name name ≡ false
    → FoundAt name is
    → FoundAt name (y ∷ is)
find_index-later name y is e r = (suc r.0, r.1, rw (e, r.2) refl, r.3, r.4)

find_index-named :
    (name : Text) (is : List PreviewItem) (j : ℕ) (i : PreviewItem)
    → get_elem? is j ≡ some i
    → i.name ≡ name
    → FoundAt name is
find_index-named name [] j i g h = cc
find_index-named name (y ∷ is) zero i g h =
    let same : y ≡ i = cc in
    let e = (text_eq_iff y.name name).1 (ap (λ (x : PreviewItem). x.name) same ∙ h) in
    (0, y, rw e refl, refl, (text_eq_iff y.name name).0 e)
find_index-named name (y ∷ is) (suc j) i g h =
    let rest = find_index-named name is j i g h in
    elim (Bool-cases (text_eq y.name name)) [
      | inl e ↦ (0, y, rw e refl, refl, (text_eq_iff y.name name).0 e)
      | inr e ↦ find_index-later name y is e rest
    ]

-- What is opened at an entry: its item is shown; keys lead to each file of the directory; and as long as the layer
-- is open, what it shows is the item of a file.
pub record Browses (source_key current_path : Text) (entries : List FileEntry) (e : FileEntry)
    (s : PreviewState) : Type 0 where
  pub named : (x : PreviewItem) × (get_elem? s.items s.index ≡ some x) × (x.name ≡ e.name)
  pub reach :
      (j : ℕ) (d : FileEntry)
      → get_elem? (keep is_file entries) j ≡ some d
      → (ks : List PreviewInput) × (t : PreviewState) × (press_all ks (some s) ≡ some t)
        × (get_elem? t.items t.index ≡ preview_item_for source_key current_path d)
  pub stay :
      (ks : List PreviewInput) (t : PreviewState)
      → press_all ks (some s) ≡ some t
      → (j : ℕ) × (d : FileEntry) × (get_elem? (keep is_file entries) j ≡ some d)
        × (get_elem? t.items t.index ≡ preview_item_for source_key current_path d)

named_as :
    (o : Option Text) (e : FileEntry) (i : PreviewItem)
    → (o >>= λ url.
        some (record { name = e.name; size = some e.size; url = url; download_url = none }))
      ≡ some i
    → i.name ≡ e.name
named_as none e i h = cc
named_as (some url) e i h =
    let same : record { name = e.name; size = some e.size; url = url; download_url = none } ≡ i =
      cc in
    ap (λ (x : PreviewItem). x.name) (sym same)

item-named :
    (source_key current_path : Text) (e : FileEntry) (i : PreviewItem)
    → preview_item_for source_key current_path e ≡ some i
    → i.name ≡ e.name
unfolding preview_item_for
item-named source_key current_path e i h =
    named_as (source_raw_url source_key (join_path current_path e.name) false) e i h

item-some :
    (source_key current_path : Text) (e : FileEntry) (key : Text)
    → encode_uri_component source_key ≡ some key
    → (i : PreviewItem) × (preview_item_for source_key current_path e ≡ some i)
unfolding preview_item_for source_raw_url
item-some source_key current_path e key h =
    elim (Option-cases (preview_item_for source_key current_path e)) [
      | inl n ↦ cc (rw h at n)
      | inr i ↦ i
    ]

in_range {ℓ} : {A : Type ℓ} (xs : List A) (k : ℕ) (x : A) → get_elem? xs k ≡ some x → k < length xs
in_range [] k x g = cc
in_range (y ∷ xs) zero x g = omega arith
in_range (y ∷ xs) (suc k) x g = let r = in_range xs k x g in omega arith

opened-InRange :
    (is : List PreviewItem) (k : ℕ) (u : PreviewState)
    → k < length is
    → some (at is k) ≡ some u
    → InRange is u
opened-InRange is k u l q =
    let same : at is k ≡ u = cc in subst (InRange is) same (record { same = refl; index = l })

-- For a source whose key can be encoded, opening the preview at a file of the listed entries shows an item with
-- its name; from there the arrow keys lead to the item of each file of the directory; and after any keys, as long
-- as the layer is not closed, it shows the item of a file of the directory.
pub open_preview-Browses :
    (source_key current_path key : Text) (entries : List FileEntry) (e : FileEntry) (n : ℕ)
    → encode_uri_component source_key ≡ some key
    → get_elem? entries n ≡ some e
    → is_file e ≡ true
    → (s : PreviewState) × (open_preview source_key current_path entries e ≡ some s)
      × Browses source_key current_path entries e s
unfolding open_preview
open_preview-Browses source_key current_path key entries e n h g file =
    let f = preview_item_for source_key current_path in
    let files = keep is_file entries in
    let made = each-ItemsOf f files (λ d. item-some source_key current_path d key h) in
    let is = made.0 in
    let listed = keep-get is_file entries n e g file in
    let mine = item-some source_key current_path e key h in
    let placed = ItemsOf-get f files is listed.0 e made.2 listed.1 in
    let found =
      find_index-named e.name is listed.0 mine.0 (placed.1 ∙ mine.1)
        (item-named source_key current_path e mine.0 mine.1) in
    let k = found.0 in
    (
      at is k,
      ap (open_items e.name) made.1
          ∙ ap (λ o. some (record { items = is; index = get_or o 0 })) found.2,
      record {
        named = (found.1, found.3, found.4);
        reach = λ j d p.
            let there = ItemsOf-get f files is j d made.2 p in
            (keys_to k j, at is j, keys_to-at is k j there.0, there.1);
        stay = λ ks t p.
            let r =
              press_all-InRange is ks (some (at is k)) t
                (λ u q. opened-InRange is k u (in_range is k found.1 found.3) q) p in
            let got = ItemsOf-entry f files is t.index made.2 r.index in
            (
              t.index,
              got.0,
              got.1,
              ap (λ (xs : List PreviewItem). get_elem? xs t.index) r.same ∙ got.2,
            );
      },
    )
