-- ===== src/FileManager/ChosenFiles.antt =====
-- A directory that is chosen in web/src/pages/FileManager.tsx gives the same files as when it is dropped
-- (web/src/utils/dropFiles.ts).
use omni_store.Common.{
  Bool, true, false, Option, none, some, List, [], ◌∷◌, ◌++◌, append-nil, if_split, ◌≡◌, ◌≢◌, refl,
  sym, ap, ◌∙◌, arith, Bool-cases, inl, inr,
}
use omni_store.Texts.{Text}
use omni_store.Files.{File}
use omni_store.DropFiles.Tree.{
  Handles, file_handle, directory_handle, no_more, broken, next, one_file, both_files, under,
  read_handle_directory,
}
use omni_store.DropFiles.Collect.{
  DroppedUploadKind, DroppedUpload, DataTransfer, before, insert_file, sort_files, from_flat_files,
  collect, collected, add_found, found, collect_dropped_upload,
}
use omni_store.FileManager.Directories.{sorted_files, read_values, read_directory_files}

-- A directory with its handle, alone in a drop.
abbrev pub drop_of : Text → Handles → List File → DataTransfer
drop_of name hs flat = record {
  items =
      (record {
        is_file = true;
        handle = some (directory_handle name hs);
        entry = none;
        file = none;
      })
      ∷ [];
  files = flat;
}

-- The drop of a directory whose files are these: without files, what the browser lists beside the items.
abbrev pub as_dropped : (Text → Text → Bool) → List File → Option (List File) → Option DroppedUpload
as_dropped at_most flat none = none
as_dropped at_most flat (some []) = some (from_flat_files at_most flat)
as_dropped at_most flat (some (f ∷ fs)) =
    some (record { files = f ∷ fs; kind = DroppedUploadKind.directory })

module _ (at_most : Text → Text → Bool)
    (total : (s t : Text) → at_most s t ≡ false → at_most t s ≡ true)
    (trans : (s t u : Text) → at_most s t ≡ true → at_most t u ≡ true → at_most s u ≡ true) where
  insert-swap :
      (x y : File) (gs : List File)
      → before at_most x y ≡ false
      → insert_file at_most x (insert_file at_most y gs)
        ≡ insert_file at_most y (insert_file at_most x gs)
  unfolding insert_file
  insert-swap x y [] h = rw (h, total _ _ h) refl
  insert-swap x y (g ∷ gs) h = elim (Bool-cases (before at_most y g)) [
    | inl a ↦ elim (Bool-cases (before at_most x g)) [
      | inl b ↦ rw (a, b, h, total _ _ h) refl
      | inr b ↦ rw (a, b, h, a) refl
    ]
    | inr a ↦ elim (Bool-cases (before at_most x g)) [
      | inl b ↦ absurd (ground (arith, h, trans _ _ _ b (total _ _ a)))
      | inr b ↦ rw (a, b) (rw a (ap (λ l. g ∷ l) (insert-swap x y gs h)))
    ]
  ]

  -- Files put one by one, from the last, into others.
  pour : List File → List File → List File
  pour [] gs = gs
  pour (f ∷ fs) gs = insert_file at_most f (pour fs gs)

  pour-insert :
      (x : File) (fs gs : List File)
      → pour (insert_file at_most x fs) gs ≡ insert_file at_most x (pour fs gs)
  unfolding pour insert_file
  pour-insert x [] gs = refl
  pour-insert x (f ∷ fs) gs =
      if_split
        (λ (l : List File). pour l gs ≡ insert_file at_most x (insert_file at_most f (pour fs gs)))
        (before at_most x f) (λ h. refl)
        (λ h.
          ap (λ l. insert_file at_most f l) (pour-insert x fs gs)
          ∙ sym (insert-swap x f (pour fs gs) h))

  pour-sort : (fs gs : List File) → pour (sort_files at_most fs) gs ≡ pour fs gs
  unfolding pour sort_files
  pour-sort [] gs = refl
  pour-sort (f ∷ fs) gs =
      pour-insert f (sort_files at_most fs) gs ∙ ap (λ l. insert_file at_most f l) (pour-sort fs gs)

  sort-append :
      (fs gs : List File) → sort_files at_most (fs ++ gs) ≡ pour fs (sort_files at_most gs)
  unfolding pour sort_files
  sort-append [] gs = refl
  sort-append (f ∷ fs) gs = ap (λ l. insert_file at_most f l) (sort-append fs gs)

  -- Two lists of files, or errors, that are the same once they are sorted.
  abbrev Same : Option (List File) → Option (List File) → Type 0
  Same a b = sorted_files at_most a ≡ sorted_files at_most b

  pour-same :
      (xs xs' ys ys' : List File)
      → sort_files at_most xs ≡ sort_files at_most xs'
      → sort_files at_most ys ≡ sort_files at_most ys'
      → sort_files at_most (xs ++ ys) ≡ sort_files at_most (xs' ++ ys')
  pour-same xs xs' ys ys' p q =
      sort-append xs ys
      ∙ sym (pour-sort xs (sort_files at_most ys))
      ∙ ap (λ l. pour l (sort_files at_most ys)) p
      ∙ pour-sort xs' (sort_files at_most ys)
      ∙ ap (λ l. pour xs' l) q
      ∙ sym (sort-append xs' ys')

  both-Same :
      (a a' b b' : Option (List File))
      → Same a a'
      → Same b b'
      → Same (both_files a b) (both_files a' b')
  both-Same none none b b' p q = refl
  both-Same none (some xs') b b' p q = cc p
  both-Same (some xs) none b b' p q = cc p
  both-Same (some xs) (some xs') none none p q = refl
  both-Same (some xs) (some xs') none (some ys') p q = cc q
  both-Same (some xs) (some xs') (some ys) none p q = cc q
  both-Same (some xs) (some xs') (some ys) (some ys') p q =
      ap some (pour-same xs xs' ys ys' (cc p) (cc q))

  pour-nil : (fs : List File) → sort_files at_most fs ≡ pour fs []
  unfolding pour sort_files
  pour-nil [] = refl
  pour-nil (f ∷ fs) = ap (λ l. insert_file at_most f l) (pour-nil fs)

  sorted-Same : (a b : Option (List File)) → Same a b → Same (sorted_files at_most a) b
  sorted-Same none b p = p
  sorted-Same (some fs) b p =
      ap some (pour-nil (sort_files at_most fs) ∙ pour-sort fs [] ∙ sym (pour-nil fs)) ∙ p

  read_values-Same :
      (hs : Handles) (parent : Text)
      → Same (read_values at_most hs parent) (read_handle_directory hs parent)
  unfolding read_values read_handle_directory
  read_values-Same no_more parent = refl
  read_values-Same broken parent = refl
  read_values-Same (next (file_handle name f) hs) parent =
      both-Same (one_file (under parent name) f) (one_file (under parent name) f) _ _ refl
        (read_values-Same hs parent)
  read_values-Same (next (directory_handle name ds) hs) parent =
      both-Same (sorted_files at_most (read_values at_most ds (under parent name)))
        (read_handle_directory ds (under parent name)) _ _
        (sorted-Same (read_values at_most ds (under parent name)) _
          (read_values-Same ds (under parent name)))
        (read_values-Same hs parent)

  as_dropped-some :
      (flat fs : List File)
      → fs ≢ []
      → as_dropped at_most flat (some fs)
        ≡ some (record { files = fs; kind = DroppedUploadKind.directory })
  as_dropped-some flat [] h = absurd (h refl)
  as_dropped-some flat (f ∷ fs) h = refl

  insert-some : (x : File) (fs : List File) → insert_file at_most x fs ≢ []
  unfolding insert_file
  insert-some x [] = λ e. cc
  insert-some x (g ∷ gs) =
      if_split (λ (l : List File). l ≢ []) (before at_most x g) (λ _ e. cc) (λ _ e. cc)

  collected-as_dropped :
      (flat : List File) (o : Option (List File))
      → collected at_most flat (add_found (found true o) (found false (some [])))
        ≡ as_dropped at_most flat (sorted_files at_most o)
  unfolding sort_files
  collected-as_dropped flat none = refl
  collected-as_dropped flat (some []) = refl
  collected-as_dropped flat (some (f ∷ fs)) = rw (append-nil fs) (
      sym (
        as_dropped-some flat (sort_files at_most (f ∷ fs)) (insert-some f (sort_files at_most fs))))

  -- For an order of paths of which any two compare and that is transitive, a directory that is dropped alone
  -- gives just the files, in their order, that it gives when it is chosen, as a directory; an error of the browser
  -- in both; and where it has no file, what the browser lists beside the items.
  pub collect_dropped_upload-chosen :
      (name : Text) (hs : Handles) (flat : List File)
      → collect_dropped_upload at_most (drop_of name hs flat)
        ≡ as_dropped at_most flat (read_directory_files at_most hs name)
  unfolding collect_dropped_upload collect read_directory_files
  collect_dropped_upload-chosen name hs flat =
      collected-as_dropped flat (read_handle_directory hs name)
      ∙ ap (λ o. as_dropped at_most flat o) (sym (read_values-Same hs name))
