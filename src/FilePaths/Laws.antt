-- ===== src/FilePaths/Laws.antt =====
-- Normal forms of paths, joining and parents (web/src/utils/filePaths.ts).
use omni_store.Common.{
  ℕ, none, some, [], ◌∷◌, ◌++◌, length, take, ◌==◌, ◌≡◌, ◌≢◌, refl, sym, ap, ◌∙◌, arith, if_ind,
  if_split,
}
use omni_store.Texts.{
  Text, slash, text_eq, last_index_of, strip_leading, strip_trailing, cons_unless_last, text_eq_iff,
}
use omni_store.FilePaths.{normalize_path, join_path, parent_at, parent_path}

-- The text with neither a first nor a last slash.
abbrev pub trimmed : Text → Text
trimmed path = strip_trailing (strip_leading path)

pub normalize_path_lem : (path : Text) → normalize_path path ≡ slash ∷ trimmed path
unfolding normalize_path
normalize_path_lem path =
    if_split (λ t. t ≡ slash ∷ trimmed path) (text_eq (slash ∷ trimmed path) (slash ∷ []))
      (λ h. sym ((text_eq_iff _ _).0 h)) (λ h. refl)

abbrev pub FirstOk : Text → Type 0
FirstOk [] = Unit
FirstOk (c ∷ s) = c ≢ slash

-- No slash at the end.
abbrev pub LastOk : Text → Type 0
LastOk [] = Unit
LastOk (c ∷ []) = c ≢ slash
LastOk (c ∷ d ∷ s) = LastOk (d ∷ s)

strip_leading-FirstOk : (s : Text) → FirstOk (strip_leading s)
unfolding strip_leading
strip_leading-FirstOk [] = tt
strip_leading-FirstOk (c ∷ s) =
    if_split FirstOk (c == slash) (λ h. strip_leading-FirstOk s) (λ h. ground arith)

cons_unless_last-LastOk : (c : ℕ) (s : Text) → LastOk s → LastOk (cons_unless_last c s)
cons_unless_last-LastOk c [] h = if_split LastOk (c == slash) (λ e. tt) (λ e. ground arith)
cons_unless_last-LastOk c (d ∷ s) h = h

strip_trailing-LastOk : (s : Text) → LastOk (strip_trailing s)
unfolding strip_trailing
strip_trailing-LastOk [] = tt
strip_trailing-LastOk (c ∷ s) =
    cons_unless_last-LastOk c (strip_trailing s) (strip_trailing-LastOk s)

strip_trailing-FirstOk : (s : Text) → FirstOk s → FirstOk (strip_trailing s)
unfolding strip_trailing
strip_trailing-FirstOk [] h = tt
strip_trailing-FirstOk (c ∷ s) h = cons_first c (strip_trailing s) h
  where
    cons_first : (c : ℕ) (s : Text) → c ≢ slash → FirstOk (cons_unless_last c s)
    cons_first c [] h = if_ind FirstOk (c == slash) tt h
    cons_first c (d ∷ s) h = h

strip_leading_of_FirstOk : (s : Text) → FirstOk s → strip_leading s ≡ s
unfolding strip_leading
strip_leading_of_FirstOk [] h = refl
strip_leading_of_FirstOk (c ∷ s) h = ground arith

strip_trailing_of_LastOk : (s : Text) → LastOk s → strip_trailing s ≡ s
unfolding strip_trailing
strip_trailing_of_LastOk [] h = refl
strip_trailing_of_LastOk (c ∷ []) h = ground arith
strip_trailing_of_LastOk (c ∷ d ∷ s) h = rw (strip_trailing_of_LastOk (d ∷ s) h)

normal_form : (t : Text) → FirstOk t → LastOk t → normalize_path (slash ∷ t) ≡ slash ∷ t
normal_form t f l =
    normalize_path_lem (slash ∷ t)
    ∙ ap (λ u. slash ∷ strip_trailing u) (strip_slash t ∙ strip_leading_of_FirstOk t f)
    ∙ ap (λ u. slash ∷ u) (strip_trailing_of_LastOk t l)
  where
    strip_slash : (t : Text) → strip_leading (slash ∷ t) ≡ strip_leading t
    strip_slash t = unfold strip_leading in refl

pub trimmed_ok : (path : Text) → FirstOk (trimmed path) × LastOk (trimmed path)
trimmed_ok path = (
  strip_trailing-FirstOk (strip_leading path) (strip_leading-FirstOk path),
  strip_trailing-LastOk (strip_leading path),
)

-- A normalised path is normalised again to itself. It begins with a slash, which no second one
-- follows, and it ends with a slash only if it is the root.
pub normalize_path-normal :
    (path : Text)
    → (normalize_path (normalize_path path) ≡ normalize_path path)
      × ((t : Text) × (normalize_path path ≡ slash ∷ t) × FirstOk t × LastOk t)
normalize_path-normal path =
    let (f, l) = trimmed_ok path in
    (
      ap normalize_path (normalize_path_lem path)
          ∙ normal_form (trimmed path) f l
          ∙ sym (normalize_path_lem path),
      (trimmed path, normalize_path_lem path, f, l),
    )

-- A name of a directory entry: not empty, and with no slash.
abbrev pub NoSlash : Text → Type 0
NoSlash [] = Unit
NoSlash (c ∷ s) = (c ≢ slash) × NoSlash s

abbrev pub IsName : Text → Type 0
IsName name = (name ≢ []) × NoSlash name

pub NoSlash-LastOk : (s : Text) → NoSlash s → LastOk s
NoSlash-LastOk [] h = tt
NoSlash-LastOk (c ∷ []) h = h.0
NoSlash-LastOk (c ∷ d ∷ s) h = NoSlash-LastOk (d ∷ s) h.1

LastOk-append : (s : Text) (c : ℕ) (t : Text) → LastOk (c ∷ t) → LastOk (s ++ c ∷ t)
LastOk-append [] c t h = h
LastOk-append (d ∷ []) c t h = h
LastOk-append (d ∷ e ∷ s) c t h = LastOk-append (e ∷ s) c t h

pub last_index_of-none : (s : Text) → NoSlash s → last_index_of slash s ≡ none
unfolding last_index_of
last_index_of-none [] h = refl
last_index_of-none (c ∷ s) h = ground (arith, last_index_of-none s h.1)

pub last_index_of-append :
    (s n : Text) → NoSlash n → last_index_of slash (s ++ slash ∷ n) ≡ some (length s)
unfolding last_index_of
last_index_of-append [] n h = rw (last_index_of-none n h)
last_index_of-append (c ∷ s) n h = rw (last_index_of-append s n h)

pub take-append : (s t : Text) → take (length s) (s ++ t) ≡ s
take-append [] t = refl
take-append (c ∷ s) t = ap (λ u. c ∷ u) (take-append s t)

abbrev pub root : Text
root = slash ∷ []

-- The two shapes of a normalised directory.
pub data Shape (d : Text) : Type 0 where
  at_root : normalize_path d ≡ root → Shape d
  below :
      (c : ℕ) (t : Text) → normalize_path d ≡ slash ∷ c ∷ t → c ≢ slash → LastOk (c ∷ t) → Shape d

Shape-from : (d t : Text) → normalize_path d ≡ slash ∷ t → FirstOk t → LastOk t → Shape d
Shape-from d [] e f l = at_root e
Shape-from d (c ∷ t) e f l = below c t e f l

pub shape : (d : Text) → Shape d
shape d = let (f, l) = trimmed_ok d in Shape-from d (trimmed d) (normalize_path_lem d) f l

pub join_path-root : (d n : Text) → normalize_path d ≡ root → join_path d n ≡ slash ∷ n
unfolding join_path text_eq
join_path-root d n e = rw e

pub join_path-below :
    (d n : Text) (c : ℕ) (t : Text)
    → normalize_path d ≡ slash ∷ c ∷ t
    → join_path d n ≡ slash ∷ c ∷ (t ++ slash ∷ n)
unfolding join_path text_eq
join_path-below d n c t e = rw e

NoSlash-FirstOk : (s : Text) → NoSlash s → FirstOk s
NoSlash-FirstOk [] h = tt
NoSlash-FirstOk (c ∷ s) h = h.0

-- Joining an entry's name to a directory gives a normalised path.
pub join_path-normal : (d n : Text) → IsName n → normalize_path (join_path d n) ≡ join_path d n
join_path-normal d n h = elim (shape d) [
  | at_root e ↦
      rw (join_path-root d n e) (normal_form n (NoSlash-FirstOk n h.1) (NoSlash-LastOk n h.1))
  | below c t e f l ↦
      rw (join_path-below d n c t e) (normal_form (c ∷ (t ++ slash ∷ n)) f (joined_last c t n h))
]
  where
    joined_last : (c : ℕ) (t n : Text) → IsName n → LastOk (c ∷ (t ++ slash ∷ n))
    joined_last c t [] h = absurd (h.0 refl)
    joined_last c t (x ∷ n) h = LastOk-append (c ∷ t) slash (x ∷ n) (NoSlash-LastOk (x ∷ n) h.1)

parent_path_of_normal :
    (q : Text) → normalize_path q ≡ q → parent_path q ≡ parent_at (last_index_of slash q) q
unfolding parent_path
parent_path_of_normal q e = ap (λ u. parent_at (last_index_of slash u) u) e

-- The parent of an entry is the normalised directory that its name was joined to.
pub parent_path-join_path : (d n : Text) → IsName n → parent_path (join_path d n) ≡ normalize_path d
parent_path-join_path d n h = elim (shape d) [
  | at_root e ↦
      parent_path_of_normal (join_path d n) (join_path-normal d n h)
      ∙ ap (λ u. parent_at (last_index_of slash u) u) (join_path-root d n e)
      ∙ ap (λ o. parent_at o (slash ∷ n)) (last_index_of-append [] n h.1)
      ∙ sym e
  | below c t e f l ↦
      parent_path_of_normal (join_path d n) (join_path-normal d n h)
      ∙ ap (λ u. parent_at (last_index_of slash u) u) (join_path-below d n c t e)
      ∙ ap (λ o. parent_at o (slash ∷ c ∷ (t ++ slash ∷ n)))
          (last_index_of-append (slash ∷ c ∷ t) n h.1)
      ∙ take-append (slash ∷ c ∷ t) (slash ∷ n)
      ∙ sym e
]
