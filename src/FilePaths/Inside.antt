-- ===== src/FilePaths/Inside.antt =====
-- isPathInside of web/src/utils/filePaths.ts.
use mathlib.Core.List.{append_assoc}
use mathlib.Core.Path.{subst}
use omni_store.Common.{
  true, ◌||◌, [], ◌∷◌, ◌++◌, ◌≡◌, ◌≢◌, ◌↔◌, ◌⊎◌, refl, sym, ap, ◌∙◌, arith, Bool-cases, inl, inr,
}
use omni_store.Texts.{
  Text, slash, text_eq, starts_with, text_eq_iff, starts_with-append, starts_with-elim,
}
use omni_store.FilePaths.{normalize_path, join_path, is_path_inside}
use omni_store.FilePaths.Laws.{
  IsName, FirstOk, at_root, below, shape, root, join_path-below, join_path-normal,
  normalize_path-normal,
}

-- One normalised path is another, or goes on from it after a slash.
abbrev pub Extends : Text → Text → Type 0
Extends p d = (p ≡ d) ⊎ ((rest : Text) × (p ≡ d ++ slash ∷ rest))

regroup : (d rest : Text) → (d ++ slash ∷ []) ++ rest ≡ d ++ slash ∷ rest
regroup d rest = append_assoc d (slash ∷ []) rest

Extends-of_test :
    (p d : Text) → (text_eq p d || starts_with p (d ++ slash ∷ [])) ≡ true → Extends p d
Extends-of_test p d h = elim (Bool-cases (text_eq p d)) [
  | inl e ↦ inl ((text_eq_iff p d).0 e)
  | inr e ↦
      let (rest, q) = starts_with-elim p (d ++ slash ∷ []) (ground arith) in
      inr (rest, q ∙ regroup d rest)
]

test_of-Extends :
    (p d : Text) → Extends p d → (text_eq p d || starts_with p (d ++ slash ∷ [])) ≡ true
test_of-Extends p d (inl e) = ground (arith, (text_eq_iff p d).1 e)
test_of-Extends p d (inr (rest, e)) =
    let found : starts_with p (d ++ slash ∷ []) ≡ true =
      rw (e ∙ sym (regroup d rest)) (starts_with-append (d ++ slash ∷ []) rest) in
    ground (arith, found)

-- `isPathInside` is true exactly if the normalised path is the normalised directory, or is that
-- directory with a slash and more behind it.
pub is_path_inside_iff :
    (p d : Text) → (is_path_inside p d ≡ true) ↔ Extends (normalize_path p) (normalize_path d)
unfolding is_path_inside
is_path_inside_iff p d = (
  Extends-of_test (normalize_path p) (normalize_path d),
  test_of-Extends (normalize_path p) (normalize_path d),
)

Extends-trans : (p q r : Text) → Extends p q → Extends q r → Extends p r
Extends-trans p q r (inl e) h = subst (λ t. Extends t r) (sym e) h
Extends-trans p q r (inr (s, e)) (inl f) = inr (s, e ∙ ap (λ t. t ++ slash ∷ s) f)
Extends-trans p q r (inr (s, e)) (inr (t, f)) =
    inr (t ++ slash ∷ s, e ∙ ap (λ u. u ++ slash ∷ s) f ∙ append_assoc r (slash ∷ t) (slash ∷ s))

-- Being inside a directory is reflexive, and what is inside a directory is inside all that this
-- directory is inside of.
pub is_path_inside_trans :
    (p q r : Text)
    → (is_path_inside p p ≡ true)
      × (is_path_inside p q ≡ true → is_path_inside q r ≡ true → is_path_inside p r ≡ true)
is_path_inside_trans p q r = (
  (is_path_inside_iff p p).1 (inl refl),
  λ h k. (is_path_inside_iff p r).1 (
      Extends-trans (normalize_path p) (normalize_path q) (normalize_path r)
        ((is_path_inside_iff p q).0 h) ((is_path_inside_iff q r).0 k)),
)

not-below_root : (p t : Text) → p ≡ slash ∷ t → FirstOk t → Extends p root → p ≡ root
not-below_root p t e f (inl h) = h
not-below_root p [] e f (inr (rest, h)) = e
not-below_root p (c ∷ t) e f (inr (rest, h)) = absurd (f (ground arith))

-- Of the root the test says otherwise: only the root itself passes for being inside.
pub is_path_inside-root :
    (p d : Text) → normalize_path d ≡ root → (is_path_inside p d ≡ true) ↔ (normalize_path p ≡ root)
is_path_inside-root p d e = (
  λ h.
      let (t, q, f, l) = (normalize_path-normal p).1 in
      not-below_root (normalize_path p) t q f
        (subst (λ u. Extends (normalize_path p) u) e ((is_path_inside_iff p d).0 h)),
  λ h. (is_path_inside_iff p d).1 (inl (h ∙ sym e)),
)

-- Every entry of a directory other than the root is inside of that directory.
pub is_path_inside-join_path :
    (d n : Text) → IsName n → normalize_path d ≢ root → is_path_inside (join_path d n) d ≡ true
is_path_inside-join_path d n h other = elim (shape d) [
  | at_root e ↦ absurd (other e)
  | below c t e f l ↦ (is_path_inside_iff (join_path d n) d).1 (
      inr
        (n, join_path-normal d n h ∙ join_path-below d n c t e ∙ ap (λ u. u ++ slash ∷ n) (sym e)))
]
