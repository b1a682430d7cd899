-- ===== src/DropFiles/Laws.antt =====
-- What is collected from a drop, in web/src/utils/dropFiles.ts.
use omni_store.Common.{
  ℕ, true, Option, none, some, List, [], ◌∷◌, ◌++◌, ◌≡◌, refl, sym, ap, ◌∙◌, All, append-nil,
  append_assoc,
}
use omni_store.Texts.{Text, slash, starts_with, starts_with-append, starts_with-elim}
use omni_store.Files.{File}
use omni_store.DropFiles.Tree.{
  Handle, Handles, no_more, broken, next, file_handle, directory_handle, Entry, Batches, file_entry,
  directory_entry, nil, cons, end, failure, batch, one_file, both_files, under, with_relative_path,
  read_handle, read_handle_directory, read_webkit_entry, read_batches,
}
use omni_store.DropFiles.Collect.{of_candidate, found}

-- The entry of a handle, as an older browser gives it, with the children of a directory one by one.
mutual
  pub as_entry : Handle → Entry
  as_entry (file_handle name f) = file_entry name f
  as_entry (directory_handle name hs) = directory_entry name (as_batches hs)

  pub as_batches : Handles → Batches
  as_batches no_more = end
  as_batches broken = failure
  as_batches (next (file_handle name f) hs) = batch (cons (file_entry name f) nil) (as_batches hs)
  as_batches (next (directory_handle name ds) hs) =
      batch (cons (directory_entry name (as_batches ds)) nil) (as_batches hs)

both_nil : (a : Option (List File)) → both_files a (some []) ≡ a
both_nil none = refl
both_nil (some a) = ap some (append-nil a)

-- Directories give the same files by handles and by entries, below a path that is not empty.
agree :
    (hs : Handles) (c : ℕ) (s : Text)
    → read_batches (as_batches hs) (c ∷ s) ≡ read_handle_directory hs (c ∷ s)
unfolding as_entry read_webkit_entry read_handle
agree no_more c s = refl
agree broken c s = refl
agree (next (file_handle name f) hs) c s =
    ap (λ o. both_files o (read_batches (as_batches hs) (c ∷ s)))
      (both_nil (one_file (under (c ∷ s) name) f))
    ∙ ap (both_files (one_file (under (c ∷ s) name) f)) (agree hs c s)
agree (next (directory_handle name ds) hs) c s =
    ap (λ o. both_files o (read_batches (as_batches hs) (c ∷ s)))
      (both_nil (read_batches (as_batches ds) (under (c ∷ s) name)))
    ∙ ap (λ o. both_files o (read_batches (as_batches hs) (c ∷ s)))
        (agree ds c (s ++ (slash ∷ name)))
    ∙ ap (both_files (read_handle_directory ds (under (c ∷ s) name))) (agree hs c s)

abbrev pub IsNamed : Handle → Type 0
IsNamed (file_handle [] f) = ⊥
IsNamed (file_handle (c ∷ s) f) = Unit
IsNamed (directory_handle [] hs) = ⊥
IsNamed (directory_handle (c ∷ s) hs) = Unit

-- What is dropped gives the same files, and counts as a directory or not, whether the browser gives it as a
-- handle or as an entry, if it has a name.
pub of_candidate-as_entry :
    (h : Handle) (e : Option Entry) (f : Option File)
    → IsNamed h
    → of_candidate (some h) e f ≡ of_candidate none (some (as_entry h)) f
unfolding as_entry read_webkit_entry
of_candidate-as_entry (file_handle [] g) e f n = absurd n
of_candidate-as_entry (file_handle (c ∷ s) g) e f n = refl
of_candidate-as_entry (directory_handle [] hs) e f n = absurd n
of_candidate-as_entry (directory_handle (c ∷ s) hs) e f n = ap (found true) (sym (agree hs c s))

-- The files below a path.
abbrev pub IsBelow : Text → File → Type 0
IsBelow p f = starts_with f.webkit_relative_path (p ++ (slash ∷ [])) ≡ true

under-IsBelow : (p name : Text) (f : File) → IsBelow p (with_relative_path (under p name) f)
under-IsBelow p name f =
    rw (sym (append_assoc p (slash ∷ []) name)) (starts_with-append (p ++ (slash ∷ [])) name)

deeper : (p name : Text) (f : File) → IsBelow (under p name) f → IsBelow p f
deeper p name f h =
    let (rest, e) = starts_with-elim f.webkit_relative_path (under p name ++ (slash ∷ [])) h in
    ap (λ t. starts_with t (p ++ (slash ∷ [])))
      (e
        ∙ ap (λ t. t ++ rest) (append_assoc p (slash ∷ name) (slash ∷ []))
        ∙ append_assoc p (slash ∷ (name ++ (slash ∷ []))) rest
        ∙ sym (append_assoc p (slash ∷ []) ((name ++ (slash ∷ [])) ++ rest)))
    ∙ starts_with-append (p ++ (slash ∷ [])) ((name ++ (slash ∷ [])) ++ rest)

all_deeper : (p name : Text) (fs : List File) → All (IsBelow (under p name)) fs → All (IsBelow p) fs
all_deeper p name [] h = tt
all_deeper p name (f ∷ fs) h = (deeper p name f h.0, all_deeper p name fs h.1)

All-joined : (P : File → Type 0) (xs ys : List File) → All P xs → All P ys → All P (xs ++ ys)
All-joined P [] ys a b = b
All-joined P (x ∷ xs) ys a b = (a.0, All-joined P xs ys a.1 b)

abbrev AllIn : (File → Type 0) → Option (List File) → Type 0
AllIn P none = Unit
AllIn P (some fs) = All P fs

both-AllIn :
    (P : File → Type 0) (a b : Option (List File))
    → AllIn P a
    → AllIn P b
    → AllIn P (both_files a b)
both-AllIn P none b x y = tt
both-AllIn P (some a) none x y = tt
both-AllIn P (some a) (some b) x y = All-joined P a b x y

one-AllIn : (p name : Text) (f : Option File) → AllIn (IsBelow p) (one_file (under p name) f)
one-AllIn p name none = tt
one-AllIn p name (some f) = (under-IsBelow p name f, tt)

deeper-AllIn :
    (p name : Text) (o : Option (List File))
    → AllIn (IsBelow (under p name)) o
    → AllIn (IsBelow p) o
deeper-AllIn p name none h = tt
deeper-AllIn p name (some fs) h = all_deeper p name fs h

directory-AllIn : (hs : Handles) (p : Text) → AllIn (IsBelow p) (read_handle_directory hs p)
unfolding read_handle
directory-AllIn no_more p = tt
directory-AllIn broken p = tt
directory-AllIn (next (file_handle name f) hs) p =
    both-AllIn (IsBelow p) (one_file (under p name) f) (read_handle_directory hs p)
      (one-AllIn p name f) (directory-AllIn hs p)
directory-AllIn (next (directory_handle name ds) hs) p =
    both-AllIn (IsBelow p) (read_handle_directory ds (under p name)) (read_handle_directory hs p)
      (deeper-AllIn p name (read_handle_directory ds (under p name))
        (directory-AllIn ds (under p name)))
      (directory-AllIn hs p)

-- Every file that is read from a directory has a path below that of the directory.
pub read_handle_directory-IsBelow :
    (hs : Handles) (p : Text) (fs : List File)
    → read_handle_directory hs p ≡ some fs
    → All (IsBelow p) fs
read_handle_directory-IsBelow hs p fs h = rw h at (directory-AllIn hs p)
