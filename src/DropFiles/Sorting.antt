-- ===== src/DropFiles/Sorting.antt =====
-- The files of a drop in order: the sorting of web/src/utils/dropFiles.ts.
use omni_store.Common.{
  Bool, true, false, List, [], ◌∷◌, tally, length, if_split, ◌≡◌, refl, sym, ◌∙◌, arith, Bool-cases,
  inl, inr,
}
use omni_store.Texts.{Text}
use omni_store.Files.{File, upload_relative_path}
use omni_store.DropFiles.Collect.{before, insert_file, sort_files}

module _ (at_most : Text → Text → Bool) where
  -- Each file stands before the next one.
  abbrev pub Sorted : List File → Type 0
  Sorted [] = Unit
  Sorted (f ∷ []) = Unit
  Sorted (f ∷ g ∷ gs) = (before at_most f g ≡ true) × Sorted (g ∷ gs)

  tally-insert_file :
      (p : File → Bool) (f : File) (gs : List File)
      → tally p (insert_file at_most f gs) ≡ tally p (f ∷ gs)
  unfolding insert_file
  tally-insert_file p f [] = refl
  tally-insert_file p f (g ∷ gs) =
      if_split (λ (l : List File). tally p l ≡ tally p (f ∷ g ∷ gs)) (before at_most f g)
        (λ _. refl) (λ _. omega (arith, tally-insert_file p f gs))

  pub tally-sort_files :
      (p : File → Bool) (fs : List File) → tally p (sort_files at_most fs) ≡ tally p fs
  unfolding sort_files
  tally-sort_files p [] = refl
  tally-sort_files p (f ∷ fs) =
      tally-insert_file p f (sort_files at_most fs) ∙ omega (arith, tally-sort_files p fs)

  module _ (total : (s t : Text) → at_most s t ≡ false → at_most t s ≡ true) where
    after_head :
        (g f : File) (gs : List File)
        → before at_most g f ≡ true
        → Sorted (g ∷ gs)
        → Sorted (insert_file at_most f gs)
        → Sorted (g ∷ insert_file at_most f gs)
    unfolding insert_file
    after_head g f [] h s i = (h, tt)
    after_head g f (k ∷ ks) h s i = elim (Bool-cases (before at_most f k)) [
      | inl y ↦ rw y (h, (y, s.1))
      | inr z ↦ rw z (s.0, rw z at i)
    ]

    insert-Sorted : (f : File) (gs : List File) → Sorted gs → Sorted (insert_file at_most f gs)
    unfolding insert_file
    insert-Sorted f [] s = tt
    insert-Sorted f (g ∷ gs) s =
        if_split Sorted (before at_most f g) (λ y. (y, s))
          (λ z.
            after_head g f gs (total (upload_relative_path f) (upload_relative_path g) z) s
              (insert-Sorted f gs (tail g gs s)))
      where
        tail : (g : File) (gs : List File) → Sorted (g ∷ gs) → Sorted gs
        tail g [] s = tt
        tail g (k ∷ ks) s = s.1

    pub sort-Sorted : (fs : List File) → Sorted (sort_files at_most fs)
    unfolding sort_files
    sort-Sorted [] = tt
    sort-Sorted (f ∷ fs) = insert-Sorted f (sort_files at_most fs) (sort-Sorted fs)

    ones : (fs : List File) → length fs ≡ tally (λ f. true) fs
    ones [] = refl
    ones (f ∷ fs) = omega (arith, ones fs)

    pub length-sort_files : (fs : List File) → length (sort_files at_most fs) ≡ length fs
    length-sort_files fs =
        ones (sort_files at_most fs) ∙ tally-sort_files (λ f. true) fs ∙ sym (ones fs)
