-- ===== src/Uri/Target.antt =====
-- How a server reads the target of a request: the segments of its path and the pairs of its query, as
-- bytes. It is the description that the requests of the client are checked against.
use omni_store.Common.{ℕ, true, false, Option, none, some, List, [], ◌∷◌, ◌==◌, if◌then◌else◌}
use omni_store.Texts.{Text}
use omni_store.Uri.Escape.{unescape}

pub record Target : Type 0 where
  pub segments : List (List ℕ)
  pub query : List (List ℕ × List ℕ)

-- The text before the first `c` and, if there is one, the text behind it.
unfoldable pub cut : ℕ → Text → Text × Option Text
cut c [] = ([], none)
cut c (d ∷ s) = let rest = cut c s in if d == c then ([], some s) else (d ∷ rest.0, rest.1)

abbrev pub onto : ℕ → List Text → List Text
onto d [] = (d ∷ []) ∷ []
onto d (t ∷ ts) = (d ∷ t) ∷ ts

-- The pieces of a text between the `c`s.
unfoldable pub pieces : ℕ → Text → List Text
pieces c [] = [] ∷ []
pieces c (d ∷ s) = let rest = pieces c s in if d == c then [] ∷ rest else onto d rest

abbrev pub both {ℓ} : {A B : Type ℓ} → Option A → Option B → Option (A × B)
both (some a) (some b) = some (a, b)
both _ _ = none

abbrev pub cons_some {ℓ} : {A : Type ℓ} → Option A → Option (List A) → Option (List A)
cons_some (some a) (some l) = some (a ∷ l)
cons_some _ _ = none

unfoldable pub read_all {ℓ κ} :
    {A : Type ℓ} {B : Type κ} → (A → Option B) → List A → Option (List B)
read_all f [] = some []
read_all f (x ∷ xs) = cons_some (f x) (read_all f xs)

abbrev pub read_segment : Text → Option (List ℕ)
read_segment s = unescape false s

abbrev pub value_of : Option Text → Text
value_of none = []
value_of (some t) = t

abbrev pub read_pair : Text → Option (List ℕ × List ℕ)
read_pair s = both (unescape true (cut b'=' s).0) (unescape true (value_of (cut b'=' s).1))

abbrev pub read_query : Option Text → Option (List (List ℕ × List ℕ))
read_query none = some []
read_query (some q) = read_all read_pair (pieces b'&' q)

-- A path begins with a slash.
abbrev pub read_path : Text → Option (List (List ℕ))
read_path [] = none
read_path (c ∷ s) = if c == b'/' then read_all read_segment (pieces b'/' s) else none

abbrev pub target : Option (List (List ℕ) × List (List ℕ × List ℕ)) → Option Target
target none = none
target (some (segments, query)) = some (record { segments = segments; query = query })

unfoldable pub read_target : Text → Option Target
unfolding read_all cut pieces unescape
read_target s = target (both (read_path (cut b'?' s).0) (read_query (cut b'?' s).1))
