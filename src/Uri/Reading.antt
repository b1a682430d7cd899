-- ===== src/Uri/Reading.antt =====
-- What is written with the encodings is read back from the target.
use omni_store.Common.{
  ℕ, true, false, Option, none, some, List, [], ◌∷◌, ◌++◌, ◌≡◌, ◌≢◌, refl, ap, sym, ◌∙◌, arith, All,
  map, append-nil, append_assoc,
}
use omni_store.Texts.{Text}
use omni_store.Uri.Bytes.{codes, IsByte, usv, usv-IsByte, All-append}
use omni_store.Uri.Escape.{
  percent, form_text, unescape, unescape-percent, unescape-form_text, IsClean, percent-IsClean,
  form_text-IsClean,
}
use omni_store.Uri.Query.{Params, params_text, param_text}
use omni_store.Uri.Target.{
  cut, pieces, both, cons_some, read_all, read_segment, read_pair, read_query, read_path, target,
  read_target, value_of,
}

-- Texts without the character `c`.
abbrev pub Free : ℕ → Text → Type 0
Free c s = All (λ d. d ≢ c) s

cut-Free : (c : ℕ) (s : Text) → Free c s → cut c s ≡ (s, none)
unfolding cut
cut-Free c [] h = refl
cut-Free c (d ∷ s) h = ground (arith, h.0, cut-Free c s h.1)

cut-append : (c : ℕ) (s t : Text) → Free c s → cut c (s ++ (c ∷ t)) ≡ (s, some t)
unfolding cut
cut-append c [] t h = ground arith
cut-append c (d ∷ s) t h = ground (arith, h.0, cut-append c s t h.1)

pub pieces-Free : (c : ℕ) (s : Text) → Free c s → pieces c s ≡ s ∷ []
unfolding pieces
pieces-Free c [] h = refl
pieces-Free c (d ∷ s) h = ground (arith, h.0, pieces-Free c s h.1)

pub pieces-append : (c : ℕ) (s t : Text) → Free c s → pieces c (s ++ (c ∷ t)) ≡ s ∷ pieces c t
unfolding pieces
pieces-append c [] t h = ground arith
pieces-append c (d ∷ s) t h = ground (arith, h.0, pieces-append c s t h.1)

module _ (c : ℕ) (clean : (d : ℕ) → IsClean d → d ≢ c) where
  clean-Free : (s : Text) → All IsClean s → Free c s
  clean-Free [] h = tt
  clean-Free (d ∷ s) h = (clean d h.0, clean-Free s h.1)

abbrev pub Segments : Type 0
Segments = List (List ℕ)

-- Text followed by another: nothing is added where the other is empty.
abbrev pub then_text : Text → Text → Text
then_text s [] = s
then_text s (c ∷ t) = s ++ (c ∷ t)

-- A path of encoded segments, with the text that follows it.
unfoldable pub path_text : Segments → Text → Text
unfolding percent
path_text [] q = q
path_text (b ∷ bs) q = b'/' ∷ then_text (percent b) (path_text bs q)

then_text_lem : (s t : Text) → then_text s t ≡ s ++ t
then_text_lem s [] = sym (append-nil s)
then_text_lem s (c ∷ t) = refl

path_text_step :
    (b : List ℕ) (bs : Segments) (q : Text)
    → path_text (b ∷ bs) q ≡ b'/' ∷ (percent b ++ path_text bs q)
unfolding path_text
path_text_step b bs q = ap (λ t. b'/' ∷ t) (then_text_lem (percent b) (path_text bs q))

path_text_end : path_text [] [] ≡ []
unfolding path_text
path_text_end = refl

path_text-append : (bs : Segments) (q : Text) → path_text bs q ≡ path_text bs [] ++ q
path_text-append [] q = unfold path_text in refl
path_text-append (b ∷ bs) q =
    path_text_step b bs q
    ∙ ap (λ t. b'/' ∷ (percent b ++ t)) (path_text-append bs q)
    ∙ ap (λ t. b'/' ∷ t) (sym (append_assoc (percent b) (path_text bs []) q))
    ∙ ap (λ t. t ++ q) (sym (path_text_step b bs []))

path_text-Free : (bs : Segments) → Free b'?' (path_text bs [])
path_text-Free [] = unfold path_text in tt
path_text-Free (b ∷ bs) = rw (path_text_step b bs []) (
  omega arith,
  All-append (λ d. d ≢ b'?') (percent b) (path_text bs [])
      (clean-Free b'?' (λ d h. h.1) (percent b) (percent-IsClean b)) (path_text-Free bs),
)

percent-Free : (b : List ℕ) → Free b'/' (percent b)
percent-Free b = clean-Free b'/' (λ d h. h.0) (percent b) (percent-IsClean b)

read-segments :
    (b : List ℕ) (bs : Segments)
    → All (All IsByte) (b ∷ bs)
    → read_all read_segment (pieces b'/' (percent b ++ path_text bs [])) ≡ some (b ∷ bs)
unfolding read_all
read-segments b [] h =
    ap (λ l. read_all read_segment (pieces b'/' l))
      (ap (λ t. percent b ++ t) path_text_end ∙ append-nil (percent b))
    ∙ ap (read_all read_segment) (pieces-Free b'/' (percent b) (percent-Free b))
    ∙ ap (λ o. cons_some o (some [])) (unescape-percent false b h.0)
read-segments b (c ∷ cs) h =
    ap (λ t. read_all read_segment (pieces b'/' (percent b ++ t))) (path_text_step c cs [])
    ∙ ap (read_all read_segment)
        (pieces-append b'/' (percent b) (percent c ++ path_text cs []) (percent-Free b))
    ∙ ap (λ o. cons_some o (read_all read_segment (pieces b'/' (percent c ++ path_text cs []))))
        (unescape-percent false b h.0)
    ∙ ap (cons_some (some b)) (read-segments c cs h.1)

read-path_text :
    (b : List ℕ) (bs : Segments)
    → All (All IsByte) (b ∷ bs)
    → read_path (path_text (b ∷ bs) []) ≡ some (b ∷ bs)
read-path_text b bs h = ap read_path (path_text_step b bs []) ∙ read-segments b bs h

-- A pair of a query, as it is written and as it is read.
abbrev pub Written : Type 0
Written = Text × (List ℕ × List ℕ)

abbrev pub IsRead : Written → Type 0
IsRead (t, p) = Free b'&' t × (read_pair t ≡ some p)

abbrev pub texts : List Written → List Text
texts [] = []
texts ((t, p) ∷ ws) = t ∷ texts ws

abbrev pub pairs : List Written → List (List ℕ × List ℕ)
pairs [] = []
pairs ((t, p) ∷ ws) = p ∷ pairs ws

abbrev pub joined : List Text → Text
joined [] = []
joined (t ∷ []) = t
joined (t ∷ u ∷ ts) = t ++ (b'&' ∷ joined (u ∷ ts))

read-joined :
    (w : Written) (ws : List Written)
    → All IsRead (w ∷ ws)
    → read_query (some (joined (texts (w ∷ ws)))) ≡ some (pairs (w ∷ ws))
unfolding read_all
read-joined (t, p) [] h =
    ap (read_all read_pair) (pieces-Free b'&' t h.0.0) ∙ ap (λ o. cons_some o (some [])) h.0.1
read-joined (t, p) ((u, q) ∷ ws) h =
    ap (read_all read_pair) (pieces-append b'&' t (joined (texts ((u, q) ∷ ws))) h.0.0)
    ∙ ap (λ o. cons_some o (read_query (some (joined (texts ((u, q) ∷ ws)))))) h.0.1
    ∙ ap (cons_some (some p)) (read-joined (u, q) ws h.1)

-- The target that is written as these segments, and these pairs if there are any.
pub read_target-path :
    (b : List ℕ) (bs : Segments)
    → All (All IsByte) (b ∷ bs)
    → read_target (path_text (b ∷ bs) []) ≡ some (record { segments = b ∷ bs; query = [] })
unfolding read_target
read_target-path b bs h =
    ap (λ (c : Text × Option Text). target (both (read_path c.0) (read_query c.1)))
      (cut-Free b'?' (path_text (b ∷ bs) []) (path_text-Free (b ∷ bs)))
    ∙ ap (λ o. target (both o (some []))) (read-path_text b bs h)

pub read_target-query :
    (b : List ℕ) (bs : Segments) (w : Written) (ws : List Written)
    → All (All IsByte) (b ∷ bs)
    → All IsRead (w ∷ ws)
    → read_target (path_text (b ∷ bs) (b'?' ∷ joined (texts (w ∷ ws))))
      ≡ some (record { segments = b ∷ bs; query = pairs (w ∷ ws) })
unfolding read_target
read_target-query b bs w ws h r =
    let q = joined (texts (w ∷ ws)) in
    ap read_target (path_text-append (b ∷ bs) (b'?' ∷ q))
    ∙ ap (λ (c : Text × Option Text). target (both (read_path c.0) (read_query c.1)))
        (cut-append b'?' (path_text (b ∷ bs) []) q (path_text-Free (b ∷ bs)))
    ∙ ap (λ o. target (both o (read_query (some q)))) (read-path_text b bs h)
    ∙ ap (λ o. target (both (some (b ∷ bs)) o)) (read-joined w ws r)

-- The pairs of URLSearchParams.
abbrev pub written : Text × Text → Written
written (name, value) = (param_text (name, value), (usv name, usv value))

form-Free : (c : ℕ) → ((d : ℕ) → IsClean d → d ≢ c) → (s : Text) → Free c (form_text (usv s))
form-Free c clean s = clean-Free c clean (form_text (usv s)) (form_text-IsClean (usv s))

pub written-IsRead : (p : Text × Text) → IsRead (written p)
written-IsRead (name, value) = (
  All-append (λ d. d ≢ b'&') (form_text (usv name)) (b'=' ∷ form_text (usv value))
      (form-Free b'&' (λ d h. h.3) name) (omega arith, form-Free b'&' (λ d h. h.3) value),
  ap (λ (c : Text × Option Text). both (unescape true c.0) (unescape true (value_of c.1)))
        (cut-append b'=' (form_text (usv name)) (form_text (usv value))
          (form-Free b'=' (λ d h. h.4) name))
      ∙ ap (λ o. both o (unescape true (form_text (usv value))))
          (unescape-form_text (usv name) (usv-IsByte name))
      ∙ ap (both (some (usv name))) (unescape-form_text (usv value) (usv-IsByte value)),
)

pub all_written-IsRead : (ps : Params) → All IsRead (map written ps)
all_written-IsRead [] = tt
all_written-IsRead (p ∷ ps) = (written-IsRead p, all_written-IsRead ps)

pub params_text-joined : (ps : Params) → params_text ps ≡ joined (texts (map written ps))
unfolding params_text
params_text-joined [] = refl
params_text-joined (p ∷ []) = refl
params_text-joined (p ∷ q ∷ ps) = ap (λ t. param_text p ++ (b'&' ∷ t)) (params_text-joined (q ∷ ps))

path_name : unescape true (codes "path") ≡ some (codes "path")
unfolding unescape
path_name = refl

-- The pair `path=…` of a value that is encoded by encodeURIComponent.
pub component-IsRead :
    (b : List ℕ) → All IsByte b → IsRead (codes "path=" ++ percent b, (codes "path", b))
component-IsRead b h = (
  All-append (λ d. d ≢ b'&') (codes "path=") (percent b) (omega arith)
      (clean-Free b'&' (λ d h. h.3) (percent b) (percent-IsClean b)),
  ap (λ (c : Text × Option Text). both (unescape true c.0) (unescape true (value_of c.1)))
        (cut-append b'=' (codes "path") (percent b) (omega arith))
      ∙ ap (λ o. both o (unescape true (percent b))) path_name
      ∙ ap (both (some (codes "path"))) (unescape-percent true b h),
)
