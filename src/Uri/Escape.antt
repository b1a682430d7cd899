-- ===== src/Uri/Escape.antt =====
-- Percent encoding: encodeURIComponent, the encoding of URLSearchParams, and how both are read back.
use omni_store.Common.{
  ℕ, ◌+◌, ◌-◌, ◌*◌, ◌/◌, ◌%◌, ◌<◌, Bool, true, ◌&&◌, ◌||◌, Option, none, some, List, [], ◌∷◌, ◌++◌,
  leb, ltb, ◌==◌, if◌then◌else◌, if_split, ◌≡◌, ◌≢◌, refl, ap, ◌∙◌, arith, All,
}
use omni_store.Texts.{Text}
use omni_store.Uri.Bytes.{IsByte, All-append, utf8}

abbrev pub is_alnum : ℕ → Bool
is_alnum c =
    (leb b'0' c && leb c b'9') || ((leb b'A' c && leb c b'Z') || (leb b'a' c && leb c b'z'))

-- What encodeURIComponent leaves as it is: letters, digits and - _ . ! ~ * ' ( ).
unfoldable pub is_unreserved : ℕ → Bool
is_unreserved c =
    is_alnum c
    || (c == b'-'
        || (c == b'_'
            || (c == b'.'
                || (c == b'!'
                    || (c == b'~' || (c == b'*' || (c == 0x27 || (c == b'(' || c == b')'))))))))

-- What URLSearchParams leaves as it is: letters, digits and * - . _.
unfoldable pub is_form_safe : ℕ → Bool
is_form_safe c = is_alnum c || (c == b'*' || (c == b'-' || (c == b'.' || c == b'_')))

unfoldable pub hex_digit : ℕ → ℕ
hex_digit d = if ltb d 10 then b'0' + d else 55 + d

abbrev pub escape : ℕ → Text
escape b = b'%' ∷ hex_digit (b / 16 % 16) ∷ hex_digit (b % 16) ∷ []

abbrev pub component_byte : ℕ → Text
component_byte b = if is_unreserved b then b ∷ [] else escape b

abbrev pub form_byte : ℕ → Text
form_byte b = if b == 0x20 then b'+' ∷ [] else if is_form_safe b then b ∷ [] else escape b

unfoldable pub encode_all : (ℕ → Text) → List ℕ → Text
encode_all f [] = []
encode_all f (b ∷ bs) = f b ++ encode_all f bs

unfoldable pub percent : List ℕ → Text
unfolding encode_all is_unreserved hex_digit
percent bs = encode_all component_byte bs

unfoldable pub form_text : List ℕ → Text
unfolding encode_all is_form_safe hex_digit
form_text bs = encode_all form_byte bs

-- `none` is the URIError at a surrogate that stands alone.
unfoldable pub encode_uri_component : Text → Option Text
unfolding utf8 percent
encode_uri_component s = elim (utf8 s) [ none ↦ none | some bs ↦ some (percent bs) ]

abbrev pub hex_value : ℕ → Option ℕ
hex_value c =
    if leb b'0' c && leb c b'9'
    then some (c - b'0')
    else if leb b'A' c && leb c b'F'
    then some (c - 55)
    else none

abbrev pub put_byte : Option ℕ → Option ℕ → Option (List ℕ) → Option (List ℕ)
put_byte (some h) (some l) (some bs) = some ((h * 16 + l) ∷ bs)
put_byte _ _ _ = none

abbrev pub cons_byte : ℕ → Option (List ℕ) → Option (List ℕ)
cons_byte b none = none
cons_byte b (some bs) = some (b ∷ bs)

abbrev pub plain_byte : Bool → ℕ → ℕ
plain_byte plus c = if plus && (c == b'+') then 0x20 else c

-- The bytes that an encoded text stands for; in a query `plus` is set, and + is a space.
unfoldable pub unescape : Bool → Text → Option (List ℕ)
unescape plus [] = some []
unescape plus (c ∷ []) = if c == b'%' then none else some (plain_byte plus c ∷ [])
unescape plus (c ∷ h ∷ []) =
    let rest = unescape plus (h ∷ []) in
    if c == b'%' then none else cons_byte (plain_byte plus c) rest
unescape plus (c ∷ h ∷ l ∷ s) =
    let escaped = unescape plus s in
    let rest = unescape plus (h ∷ l ∷ s) in
    if c == b'%'
    then put_byte (hex_value h) (hex_value l) escaped
    else cons_byte (plain_byte plus c) rest

unescape-plain :
    (plus : Bool) (c : ℕ) (s : Text)
    → c ≢ b'%'
    → unescape plus (c ∷ s) ≡ cons_byte (plain_byte plus c) (unescape plus s)
unfolding unescape
unescape-plain plus c [] h = ground arith
unescape-plain plus c (d ∷ []) h = ground arith
unescape-plain plus c (d ∷ e ∷ s) h = ground arith

hex_value-hex_digit : (d : ℕ) → d < 16 → hex_value (hex_digit d) ≡ some d
unfolding hex_digit
hex_value-hex_digit d h = ground arith

unescape-escape :
    (plus : Bool) (b : ℕ) (s : Text)
    → b < 256
    → unescape plus (escape b ++ s) ≡ cons_byte b (unescape plus s)
unfolding unescape
unescape-escape plus b s h =
    rw (hex_value-hex_digit (b / 16 % 16) (omega arith), hex_value-hex_digit (b % 16) (omega arith))
      (together (unescape plus s))
  where
    together :
        (o : Option (List ℕ)) → put_byte (some (b / 16 % 16)) (some (b % 16)) o ≡ cons_byte b o
    together none = refl
    together (some bs) = ap (λ n. some (n ∷ bs)) (omega (arith, h))

unescape-component_byte :
    (plus : Bool) (b : ℕ) (s : Text)
    → b < 256
    → unescape plus (component_byte b ++ s) ≡ cons_byte b (unescape plus s)
unfolding is_unreserved
unescape-component_byte plus b s h =
    if_split (λ t. unescape plus (t ++ s) ≡ cons_byte b (unescape plus s)) (is_unreserved b)
      (λ safe.
        let plain : plain_byte plus b ≡ b = ground (arith, safe) in
        unescape-plain plus b s (λ e. ground (arith, safe, e))
        ∙ ap (λ c. cons_byte c (unescape plus s)) plain)
      (λ _. unescape-escape plus b s h)

unescape-form_byte :
    (b : ℕ) (s : Text) → b < 256 → unescape true (form_byte b ++ s) ≡ cons_byte b (unescape true s)
unfolding is_form_safe
unescape-form_byte b s h =
    if_split (λ t. unescape true (t ++ s) ≡ cons_byte b (unescape true s)) (b == 0x20)
      (λ space.
        unescape-plain true b'+' s (λ e. omega (arith, e))
        ∙ ap (λ c. cons_byte c (unescape true s)) (ground (arith, space)))
      (λ other.
        if_split (λ t. unescape true (t ++ s) ≡ cons_byte b (unescape true s)) (is_form_safe b)
          (λ safe.
            let plain : plain_byte true b ≡ b = ground (arith, safe) in
            unescape-plain true b s (λ e. ground (arith, safe, e))
            ∙ ap (λ c. cons_byte c (unescape true s)) plain)
          (λ _. unescape-escape true b s h))

unescape-encode_all :
    (plus : Bool) (f : ℕ → Text)
    → ((b : ℕ) (s : Text) → b < 256 → unescape plus (f b ++ s) ≡ cons_byte b (unescape plus s))
    → (bs : List ℕ) → All IsByte bs
    → unescape plus (encode_all f bs) ≡ some bs
unfolding encode_all unescape
unescape-encode_all plus f step [] h = refl
unescape-encode_all plus f step (b ∷ bs) h =
    step b (encode_all f bs) h.0 ∙ ap (cons_byte b) (unescape-encode_all plus f step bs h.1)

-- What is encoded is read back, in a path and in a query.
pub unescape-percent :
    (plus : Bool) (bs : List ℕ) → All IsByte bs → unescape plus (percent bs) ≡ some bs
unfolding percent
unescape-percent plus bs h =
    unescape-encode_all plus component_byte (unescape-component_byte plus) bs h

pub unescape-form_text : (bs : List ℕ) → All IsByte bs → unescape true (form_text bs) ≡ some bs
unfolding form_text
unescape-form_text bs h = unescape-encode_all true form_byte unescape-form_byte bs h

-- No encoded text holds a character that a URL gives a meaning to.
abbrev pub IsClean : ℕ → Type 0
IsClean c = (c ≢ b'/') × (c ≢ b'?') × (c ≢ b'#') × (c ≢ b'&') × (c ≢ b'=')

hex_digit-IsClean : (d : ℕ) → d < 16 → IsClean (hex_digit d)
unfolding hex_digit
hex_digit-IsClean d h = ground arith

escape-IsClean : (b : ℕ) → All IsClean (escape b)
escape-IsClean b = (
  ground arith,
  (hex_digit-IsClean (b / 16 % 16) (omega arith), (hex_digit-IsClean (b % 16) (omega arith), tt)),
)

component_byte-IsClean : (b : ℕ) → All IsClean (component_byte b)
unfolding is_unreserved
component_byte-IsClean b =
    if_split (All IsClean) (is_unreserved b) (λ safe. ground (arith, safe)) (λ _. escape-IsClean b)

form_byte-IsClean : (b : ℕ) → All IsClean (form_byte b)
unfolding is_form_safe
form_byte-IsClean b =
    if_split (All IsClean) (b == 0x20) (λ _. ground arith)
      (λ _.
        if_split (All IsClean) (is_form_safe b) (λ safe. ground (arith, safe))
          (λ _. escape-IsClean b))

encode_all-IsClean :
    (f : ℕ → Text) → ((b : ℕ) → All IsClean (f b)) → (bs : List ℕ) → All IsClean (encode_all f bs)
unfolding encode_all
encode_all-IsClean f h [] = tt
encode_all-IsClean f h (b ∷ bs) =
    All-append IsClean (f b) (encode_all f bs) (h b) (encode_all-IsClean f h bs)

pub percent-IsClean : (bs : List ℕ) → All IsClean (percent bs)
unfolding percent
percent-IsClean bs = encode_all-IsClean component_byte component_byte-IsClean bs

pub form_text-IsClean : (bs : List ℕ) → All IsClean (form_text bs)
unfolding form_text
form_text-IsClean bs = encode_all-IsClean form_byte form_byte-IsClean bs
