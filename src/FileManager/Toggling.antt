-- ===== src/FileManager/Toggling.antt =====
-- The selection of web/src/pages/FileManager.tsx: toggling all entries that are shown.
use omni_store.Common.{
  Bool, true, false, ◌&&◌, not, List, [], ◌∷◌, every, keep, any, ◌≡◌, refl, ◌∙◌, arith,
}
use omni_store.Texts.{Text, text_eq, text_eq_iff}
use omni_store.FileManager.Defs.{FileEntry, FileManagerView, has_name, is_supported}
use omni_store.FileManager.Actions.{
  is_empty, selectable_entries, selected_entries, all_visible_selected, toggle_selected,
  toggle_each, toggle_all_selected,
}

text_eq_refl : (s : Text) → text_eq s s ≡ true
text_eq_refl s = (text_eq_iff s s).1 refl

-- A name that is taken out of a set is not in it, and the others stay as they were.
has_name-without :
    (name n : Text) (names : List Text)
    → has_name (keep (λ m. not (text_eq m name)) names) n
      ≡ (not (text_eq n name) && has_name names n)
has_name-without name n [] = ground arith
has_name-without name n (m ∷ names) = ground (
  arith,
  has_name-without name n names,
  (text_eq_iff m n).0,
  (text_eq_iff m n).1,
  (text_eq_iff m name).0,
  (text_eq_iff n name).0,
  (text_eq_iff n name).1,
  (text_eq_iff m name).1,
)

module _ {W : Type 0} where
  toggled_on :
      (name n : Text) (v : FileManagerView W)
      → has_name v.selected_names n ≡ true
      → has_name (toggle_selected name true v).selected_names n ≡ true
  unfolding toggle_selected
  toggled_on name n v h = ground (arith, h)

  turned_on :
      (name : Text) (v : FileManagerView W)
      → has_name (toggle_selected name true v).selected_names name ≡ true
  unfolding toggle_selected
  turned_on name v = ground (arith, text_eq_refl name)

  kept_on :
      (es : List FileEntry) (n : Text) (v : FileManagerView W)
      → has_name v.selected_names n ≡ true
      → has_name (toggle_each true es v).selected_names n ≡ true
  unfolding toggle_each
  kept_on [] n v h = h
  kept_on (e ∷ es) n v h = kept_on es n (toggle_selected e.name true v) (toggled_on e.name n v h)

  kept_off :
      (es : List FileEntry) (n : Text) (v : FileManagerView W)
      → has_name v.selected_names n ≡ false
      → has_name (toggle_each false es v).selected_names n ≡ false
  unfolding toggle_each toggle_selected
  kept_off [] n v h = h
  kept_off (e ∷ es) n v h =
      kept_off es n (toggle_selected e.name false v)
        (has_name-without e.name n v.selected_names ∙ ground (arith, h))

  same_entries :
      (b : Bool) (es : List FileEntry) (v : FileManagerView W)
      → (toggle_each b es v).entries ≡ v.entries
  unfolding toggle_each toggle_selected
  same_entries b [] v = refl
  same_entries b (e ∷ es) v = same_entries b es (toggle_selected e.name b v)

  all_on :
      (es : List FileEntry) (v : FileManagerView W)
      → every (λ e. has_name (toggle_each true es v).selected_names e.name) es ≡ true
  unfolding toggle_each
  all_on [] v = refl
  all_on (e ∷ es) v =
      let v1 = toggle_selected e.name true v in
      let head = kept_on es e.name v1 (turned_on e.name v) in
      let rest = all_on es v1 in ground (arith, head, rest)

  all_off :
      (es : List FileEntry) (v : FileManagerView W)
      → every (λ e. not (has_name (toggle_each false es v).selected_names e.name)) es ≡ true
  unfolding toggle_each toggle_selected
  all_off [] v = refl
  all_off (e ∷ es) v =
      let v1 = toggle_selected e.name false v in
      let off = has_name-without e.name e.name v.selected_names in
      let gone : has_name v1.selected_names e.name ≡ false =
        off ∙ ground (arith, text_eq_refl e.name) in
      let head = kept_off es e.name v1 gone in
      let rest = all_off es v1 in ground (arith, head, rest)

  untouched :
      (b : Bool) (n : Text) (es : List FileEntry) (v : FileManagerView W)
      → any (λ e. text_eq n e.name) es ≡ false
      → has_name (toggle_each b es v).selected_names n ≡ has_name v.selected_names n
  unfolding toggle_each toggle_selected
  untouched b n [] v h = refl
  untouched true n (e ∷ es) v h =
      untouched true n es (toggle_selected e.name true v) (ground arith)
      ∙ ground (arith, (text_eq_iff e.name n).0, (text_eq_iff n e.name).1)
  untouched false n (e ∷ es) v h =
      untouched false n es (toggle_selected e.name false v) (ground arith)
      ∙ has_name-without e.name n v.selected_names
      ∙ ground arith

keep_all :
    (q r : FileEntry → Bool) (es : List FileEntry)
    → every r (keep q es) ≡ true
    → keep (λ e. r e && q e) es ≡ keep q es
keep_all q r [] h = refl
keep_all q r (e ∷ es) h = ground (arith, keep_all q r es)

keep_none :
    (q r : FileEntry → Bool) (es : List FileEntry)
    → every (λ e. not (r e)) (keep q es) ≡ true
    → keep (λ e. r e && q e) es ≡ []
keep_none q r [] h = refl
keep_none q r (e ∷ es) h = ground (arith, keep_none q r es)

-- Selecting all selects exactly the entries that are shown and may be selected, and the box for all of
-- them is then ticked if there are any; deselecting all leaves none of those shown selected.
pub toggle_all_selected-selected_entries :
    {W : Type 0} (v : FileManagerView W)
    → (selected_entries (toggle_all_selected true v) ≡ selectable_entries v)
      × (all_visible_selected (toggle_all_selected true v) ≡ not (is_empty (selectable_entries v)))
      × (selected_entries (toggle_all_selected false v) ≡ [])
unfolding toggle_all_selected selected_entries selectable_entries all_visible_selected
toggle_all_selected-selected_entries v =
    let shown = keep (λ e. is_supported e.type) v.entries in
    let on = all_on shown v in
    (
      rw (same_entries true shown v) (
          keep_all _ (λ e. has_name (toggle_each true shown v).selected_names e.name) v.entries on),
      rw (same_entries true shown v, on) (ground arith),
      rw (same_entries false shown v) (
          keep_none _ (λ e. has_name (toggle_each false shown v).selected_names e.name) v.entries
            (all_off shown v)),
    )

-- Toggling all leaves a name that is not that of an entry shown selected or not, as it was.
pub toggle_all_selected-has_name :
    {W : Type 0} (b : Bool) (n : Text) (v : FileManagerView W)
    → any (λ e. text_eq n e.name) (selectable_entries v) ≡ false
    → has_name (toggle_all_selected b v).selected_names n ≡ has_name v.selected_names n
unfolding toggle_all_selected selectable_entries
toggle_all_selected-has_name b n v h = untouched b n (keep (λ e. is_supported e.type) v.entries) v h
