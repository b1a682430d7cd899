-- ===== src/DropFiles/Outcome.antt =====
-- What web/src/utils/dropFiles.ts makes of a drop.
use mathlib.Core.Path.{subst}
use omni_store.Common.{
  ℕ, zero, suc, Bool, true, false, ◌||◌, Option, none, some, List, [], ◌∷◌, ◌++◌, any, keep, tally,
  length, get_elem?, ◌==◌, if◌then◌else◌, if_split, ◌≡◌, ◌≢◌, ◌⊎◌, refl, sym, ap, ◌∙◌, arith,
  Bool-cases, inl, inr,
}
use omni_store.Texts.{Text, slash}
use omni_store.Files.{File, upload_relative_path}
use omni_store.DropFiles.Tree.{
  Handle, Entry, file_handle, directory_handle, file_entry, directory_entry, other_entry,
  read_handle, read_webkit_entry,
}
use omni_store.DropFiles.Collect.{
  DroppedUpload, DroppedUploadKind, DropItem, DataTransfer, Found, found, of_candidate, add_found,
  collect, kind_of_files, has_slash, is_no_file, is_no_item, sort_files, from_flat_files, collected,
  collect_dropped_upload,
}
use omni_store.DropFiles.Sorting.{Sorted, tally-sort_files, sort-Sorted, length-sort_files}

-- What a single item holds: the files of its handle; without one those of its entry, and without both its file.
abbrev pub handle_name : Handle → Text
handle_name (file_handle name f) = name
handle_name (directory_handle name hs) = name

abbrev pub held : Option Handle → Option Entry → Option File → Option (List File)
held (some h) e f = read_handle h (handle_name h)
held none (some e) f = read_webkit_entry e []
held none none (some f) = some (f ∷ [])
held none none none = some []

abbrev pub item_files : DropItem → Option (List File)
item_files i = held i.handle i.entry i.file

abbrev pub is_directory_by : Option Handle → Option Entry → Bool
is_directory_by (some (directory_handle name hs)) e = true
is_directory_by (some (file_handle name f)) e = false
is_directory_by none (some (directory_entry name bs)) = true
is_directory_by none _ = false

abbrev pub is_directory_item : DropItem → Bool
is_directory_item i = is_directory_by i.handle i.entry

-- The items that are files for the browser.
abbrev pub file_items : DataTransfer → List DropItem
file_items t = keep (λ i. i.is_file) t.items

-- What each of some items holds, item for item.
abbrev pub PartsOf : List DropItem → List (List File) → Type 0
PartsOf [] [] = Unit
PartsOf (i ∷ is) (fs ∷ parts) = (item_files i ≡ some fs) × PartsOf is parts
PartsOf _ _ = ⊥

abbrev pub joined : List (List File) → List File
joined [] = []
joined (fs ∷ parts) = fs ++ joined parts

-- Some element passes a test.
abbrev pub Exists {ℓ} : {A : Type ℓ} → (A → Bool) → List A → Type ℓ
Exists {A = A} p xs = (i : ℕ) × (x : A) × (get_elem? xs i ≡ some x) × (p x ≡ true)

-- The path of a file has a slash.
abbrev pub WithSlash : List File → Type 0
WithSlash fs =
    (i : ℕ) × (f : File) × (j : ℕ) × (get_elem? fs i ≡ some f)
    × (get_elem? (upload_relative_path f) j ≡ some slash)

-- The kind of some number of files, when `D` says whether there is a directory.
abbrev pub KindOk : Type 0 → ℕ → DroppedUploadKind → Type 0
KindOk D n DroppedUploadKind.directory = D
KindOk D n DroppedUploadKind.file = (D → ⊥) × (n ≡ 1)
KindOk D n DroppedUploadKind.files = (D → ⊥) × (n ≢ 1)

-- An upload of just these files, each as often as it is among them, in order.
pub record UploadsAll (at_most : Text → Text → Bool) (fs : List File) (D : Type 0)
    (u : DroppedUpload) : Type 0 where
  pub counts : (p : File → Bool) → tally p u.files ≡ tally p fs
  pub sorted : Sorted at_most u.files
  pub kind : KindOk D (length u.files) u.kind

-- The files of the items are uploaded; where they hold none, those of the transfer.
abbrev pub DropOutcome : (Text → Text → Bool) → DataTransfer → Option DroppedUpload → Type 0
DropOutcome at_most t none =
    (i : ℕ) × (x : DropItem) × (get_elem? (file_items t) i ≡ some x) × (item_files x ≡ none)
DropOutcome at_most t (some u) =
    (parts : List (List File)) × PartsOf (file_items t) parts
    × (((joined parts ≢ [])
          × UploadsAll at_most (joined parts) (Exists is_directory_item (file_items t)) u)
        ⊎ ((joined parts ≡ []) × UploadsAll at_most t.files (WithSlash t.files) u))

any_elim {ℓ} : {A : Type ℓ} (p : A → Bool) (xs : List A) → any p xs ≡ true → Exists p xs
any_elim p [] h = cc h
any_elim p (x ∷ xs) h = elim (Bool-cases (p x)) [
  | inl e ↦ (0, x, refl, e)
  | inr e ↦ let (i, y, g, k) = any_elim p xs (rw e at h) in (suc i, y, g, k)
]

any_intro {ℓ} :
    {A : Type ℓ} (p : A → Bool) (xs : List A) (i : ℕ) (x : A)
    → get_elem? xs i ≡ some x
    → p x ≡ true
    → any p xs ≡ true
any_intro p [] i x g h = cc
any_intro p (y ∷ xs) zero x g h = let same : y ≡ x = cc in rw (ap p same, h) refl
any_intro p (y ∷ xs) (suc i) x g h = ground (arith, any_intro p xs i x g h)

-- The kind of the code, for a flag that says whether `D`.
kind-KindOk :
    (D : Type 0) (b : Bool) (fs : List File)
    → (b ≡ true → D)
    → (D → b ≡ true)
    → KindOk D (length fs) (kind_of_files b fs)
kind-KindOk D true fs to from = to refl
kind-KindOk D false fs to from =
    if_split (KindOk D (length fs)) (length fs == 1) (λ e. (λ d. cc (from d), ground (arith, e)))
      (λ e. (λ d. cc (from d), ground (arith, e)))

-- One item, and all of them.
of_candidate-held :
    (h : Option Handle) (e : Option Entry) (f : Option File)
    → of_candidate h e f ≡ found (is_directory_by h e) (held h e f)
of_candidate-held (some (file_handle name g)) e f = unfold read_handle in refl
of_candidate-held (some (directory_handle name hs)) e f = unfold read_handle in refl
of_candidate-held none (some (file_entry name g)) f = refl
of_candidate-held none (some (directory_entry name bs)) f = refl
of_candidate-held none (some (other_entry name)) f = refl
of_candidate-held none none (some f) = refl
of_candidate-held none none none = refl

-- What the loop over items gives.
abbrev Collects : List DropItem → Option Found → Type 0
Collects is none = (i : ℕ) × (x : DropItem) × (get_elem? is i ≡ some x) × (item_files x ≡ none)
Collects is (some r) =
    (parts : List (List File)) × PartsOf is parts
    × (r.files ≡ joined parts)
    × (r.contains_directory ≡ any is_directory_item is)

add-Collects :
    (x : DropItem) (is : List DropItem) (o : Option (List File)) (rest : Option Found)
    → item_files x ≡ o
    → Collects is rest
    → Collects (x ∷ is) (add_found (found (is_directory_item x) o) rest)
add-Collects x is none rest e h = (0, x, refl, e)
add-Collects x is (some fs) none e (i, y, g, k) = (suc i, y, g, k)
add-Collects x is (some fs) (some r) e (parts, ok, files, flag) =
    (fs ∷ parts, (e, ok), ap (λ l. fs ++ l) files, ap (λ b. is_directory_item x || b) flag)

collect-Collects : (is : List DropItem) → Collects is (collect is)
unfolding collect
collect-Collects [] = ([], tt, refl, refl)
collect-Collects (x ∷ is) =
    subst (λ o. Collects (x ∷ is) (add_found o (collect is)))
      (sym (of_candidate-held x.handle x.entry x.file))
      (add-Collects x is (item_files x) (collect is) refl (collect-Collects is))

-- The files of the transfer, and whether one has a path with a slash.
slashes-WithSlash : (fs : List File) → any has_slash fs ≡ true → WithSlash fs
slashes-WithSlash fs h =
    let (i, f, g, k) = any_elim has_slash fs h in
    let (j, c, g', k') = any_elim (λ c. c == slash) (upload_relative_path f) k in
    let same : c ≡ slash = ground (arith, k') in (i, f, j, g, g' ∙ ap some same)

WithSlash-slashes : (fs : List File) → WithSlash fs → any has_slash fs ≡ true
WithSlash-slashes fs (i, f, j, g, k) =
    any_intro has_slash fs i f g
      (any_intro (λ c. c == slash) (upload_relative_path f) j slash k refl)

module _ (at_most : Text → Text → Bool)
    (total : (s t : Text) → at_most s t ≡ false → at_most t s ≡ true) where
  flat-UploadsAll :
      (fs : List File) → UploadsAll at_most fs (WithSlash fs) (from_flat_files at_most fs)
  unfolding from_flat_files
  flat-UploadsAll fs = record {
    counts = λ p. tally-sort_files at_most p fs;
    sorted = sort-Sorted at_most total fs;
    kind =
        subst (λ n. KindOk (WithSlash fs) n (kind_of_files (any has_slash fs) fs))
          (sym (length-sort_files at_most total fs))
          (kind-KindOk (WithSlash fs) (any has_slash fs) fs (slashes-WithSlash fs)
            (WithSlash-slashes fs));
  }

  items-UploadsAll :
      (is : List DropItem) (b : Bool) (fs : List File)
      → b ≡ any is_directory_item is
      → UploadsAll at_most fs
          (Exists is_directory_item is)
          (record { files = sort_files at_most fs; kind = kind_of_files b (sort_files at_most fs) })
  items-UploadsAll is b fs e = record {
    counts = λ p. tally-sort_files at_most p fs;
    sorted = sort-Sorted at_most total fs;
    kind =
        kind-KindOk (Exists is_directory_item is) b (sort_files at_most fs)
          (λ h. any_elim is_directory_item is (sym e ∙ h))
          (λ (i, x, g, k). e ∙ any_intro is_directory_item is i x g k);
  }

  no_item-empty : (is : List DropItem) → is_no_item is ≡ true → is ≡ []
  no_item-empty [] h = refl
  no_item-empty (i ∷ is) h = cc h

  collected-DropOutcome :
      (t : DataTransfer) (o : Option Found)
      → Collects (file_items t) o
      → DropOutcome at_most t (collected at_most t.files o)
  collected-DropOutcome t none h = h
  collected-DropOutcome t (some r) (parts, ok, files, flag) = of r.files files
    where
      of :
          (fs : List File)
          → fs ≡ joined parts
          → DropOutcome at_most t (
              if is_no_file fs
              then some (from_flat_files at_most t.files)
              else some (record {
                files = sort_files at_most fs;
                kind = kind_of_files r.contains_directory (sort_files at_most fs);
              }))
      of [] e = (parts, ok, inr (sym e, flat-UploadsAll t.files))
      of (f ∷ fs) e = (
        parts,
        ok,
        inl (
          (λ n. cc (e ∙ n)),
          subst
              (λ l. UploadsAll at_most l (Exists is_directory_item (file_items t)) (record {
                files = sort_files at_most (f ∷ fs);
                kind = kind_of_files r.contains_directory (sort_files at_most (f ∷ fs));
              }))
              e (items-UploadsAll (file_items t) r.contains_directory (f ∷ fs) flag),
        ),
      )

  -- A drop fails exactly when an item cannot be read: a file or a directory that the browser fails to give. Else
  -- it gives the files that its items hold, each as often as the items together hold it; or, where they hold
  -- none, the files that the transfer lists. They are sorted by the paths that they are uploaded to, for an order
  -- of which any two compare. The kind is `directory` when one of the items is a directory, or for the listed
  -- files when a path has a slash; else `file` for a single file and `files` for any other number.
  pub collect_dropped_upload-DropOutcome :
      (t : DataTransfer) → DropOutcome at_most t (collect_dropped_upload at_most t)
  unfolding collect_dropped_upload
  collect_dropped_upload-DropOutcome t =
      if_split (DropOutcome at_most t) (is_no_item (file_items t))
        (λ h. (
          [],
          subst (λ is. PartsOf is []) (sym (no_item-empty (file_items t) h)) tt,
          inr (refl, flat-UploadsAll t.files),
        ))
        (λ h. collected-DropOutcome t (collect (file_items t)) (collect-Collects (file_items t)))
