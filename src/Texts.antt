-- ===== src/Texts.antt =====
-- JavaScript strings that the client takes apart: lists of UTF-16 code units, with the methods of
-- String.prototype that it calls on them.
use omni_store.Common.{
  ℕ, suc, Bool, true, false, ◌&&◌, Option, none, some, List, [], ◌∷◌, ◌++◌, if◌then◌else◌, ◌==◌,
  ◌≡◌, ◌↔◌, refl, arith,
}

abbrev pub Text : Type 0
Text = List ℕ

abbrev pub slash : ℕ
slash = b'/'

-- `===`.
unfoldable pub text_eq : Text → Text → Bool
text_eq [] [] = true
text_eq (c ∷ s) (d ∷ t) = c == d && text_eq s t
text_eq _ _ = false

unfoldable pub starts_with : Text → Text → Bool
starts_with s [] = true
starts_with [] (d ∷ t) = false
starts_with (c ∷ s) (d ∷ t) = c == d && starts_with s t

-- `lastIndexOf` of one character; `none` is -1.
unfoldable pub last_index_of : ℕ → Text → Option ℕ
last_index_of c [] = none
last_index_of c (d ∷ s) = elim (last_index_of c s) [
  | some i ↦ some (suc i)
  | none ↦ if c == d then some 0 else none
]

-- `s.replace(/^\/+/, '')`.
unfoldable pub strip_leading : Text → Text
strip_leading [] = []
strip_leading (c ∷ s) = let rest = strip_leading s in if c == slash then rest else c ∷ s

-- `s.replace(/\/+$/, '')`: a slash goes where only slashes follow.
abbrev pub cons_unless_last : ℕ → Text → Text
cons_unless_last c [] = if c == slash then [] else c ∷ []
cons_unless_last c (d ∷ s) = c ∷ d ∷ s

unfoldable pub strip_trailing : Text → Text
strip_trailing [] = []
strip_trailing (c ∷ s) = cons_unless_last c (strip_trailing s)

pub text_eq_iff : (s t : Text) → (text_eq s t ≡ true) ↔ (s ≡ t)
unfolding text_eq
text_eq_iff [] [] = ground arith
text_eq_iff [] (d ∷ t) = ground arith
text_eq_iff (c ∷ s) [] = ground arith
text_eq_iff (c ∷ s) (d ∷ t) = ground (arith, text_eq_iff s t)

pub starts_with-append : (s t : Text) → starts_with (s ++ t) s ≡ true
unfolding starts_with
starts_with-append [] [] = refl
starts_with-append [] (d ∷ t) = refl
starts_with-append (c ∷ s) t = ground (arith, starts_with-append s t)

pub starts_with-elim : (s t : Text) → starts_with s t ≡ true → (rest : Text) × (s ≡ t ++ rest)
unfolding starts_with
starts_with-elim s [] h = (s, refl)
starts_with-elim [] (d ∷ t) h = cc
starts_with-elim (c ∷ s) (d ∷ t) h =
    let (rest, e) = starts_with-elim s t (ground arith) in (rest, ground arith)
