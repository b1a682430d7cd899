-- ===== src/AnonymousUpload/LinkReaders.antt =====
-- How the links that web/src/pages/AnonymousUpload.tsx offers are read, where they are pasted alone: the part of HTML,
-- CommonMark and BBCode that they are written in. A text is what stands in the source, before a reader decodes
-- character references and inline markup.
use omni_store.Common.{
  ℕ, zero, suc, Bool, false, ◌||◌, ◌&&◌, not, Option, none, some, List, [], ◌∷◌, any, leb, ◌==◌,
  if◌then◌else◌, ◌≡◌,
}
use omni_store.Texts.{Text}
use omni_store.Uri.Bytes.{codes}
use omni_store.Api.Calls.{◌>>=◌}
use omni_store.AnonymousUpload.Links.{LinkOption}

-- What comes after a prefix.
abbrev pub after : Text → Text → Option Text
after [] s = some s
after (w ∷ ws) [] = none
after (w ∷ ws) (c ∷ s) = let rest = after ws s in if c == w then rest else none

abbrev pub consed : ℕ → Option (Text × Text) → Option (Text × Text)
consed c none = none
consed c (some (s, t)) = some (c ∷ s, t)

-- A text up to a character, as the value of an attribute up to its quote, and what comes after it.
abbrev pub up_to : ℕ → Text → Option (Text × Text)
up_to q [] = none
up_to q (c ∷ s) = let rest = up_to q s in if c == q then some ([], s) else consed c rest

abbrev pub ended : Text → Text × Text → Option (Text × Text)
ended [] p = some p
ended (c ∷ s) p = none

-- The attributes `src` and `alt` of an img element.
abbrev pub read_html : Text → Option (Text × Text)
read_html s = do
  a ← after (codes "<img src=\"") s
  (src, b) ← up_to b'"' a
  c ← after (codes " alt=\"") b
  (alt, d) ← up_to b'"' c
  e ← after (codes " />") d
  ended e (alt, src)

abbrev pub is_line_end : ℕ → Bool
is_line_end c = c == 10 || c == 13

-- The description of an image up to the bracket that ends it, on one line; a backslash escapes what follows it.
abbrev pub label : Bool → Text → Option (Text × Text)
label escaped [] = none
label escaped (c ∷ s) =
    let rest = label (not escaped && c == 0x5c) s in
    if not escaped && c == b']' then some ([], s) else if is_line_end c then none else consed c rest

-- What a URL is written with that no reader takes for markup: neither a space nor a control character, and none
-- of these.
abbrev pub is_url_unit : ℕ → Bool
is_url_unit c =
    leb 33 c
    && not (
        any (λ d. c == d)
          (b'"' ∷ b'<' ∷ b'>' ∷ b'(' ∷ b')' ∷ b'[' ∷ b']' ∷ 0x5c ∷ b'`' ∷ b'&' ∷ 127 ∷ []))

-- The destination of an image, between parentheses, which ends the text.
abbrev pub destination : Text → Option Text
destination [] = none
destination (c ∷ s) =
    let rest = destination s in
    if c == b')'
    then elim s [ [] ↦ some [] | _ ↦ none ]
    else if is_url_unit c
    then elim rest [ none ↦ none | some t ↦ some (c ∷ t) ]
    else none

-- The description and the destination of an image.
abbrev pub read_markdown : Text → Option (Text × Text)
read_markdown s = do
  a ← after (codes "![") s
  (alt, b) ← label false a
  c ← after (codes "(") b
  url ← destination c
  some (alt, url)

abbrev pub read_bbcode : Text → Option Text
read_bbcode s = do
  a ← after (codes "[img]") s
  (url, b) ← up_to b'[' a
  c ← after (codes "/img]") b
  (u, v) ← ended c (url, [])
  some u

-- The value of the option at a place.
abbrev pub value_at : ℕ → List LinkOption → Text
value_at n [] = []
value_at zero (o ∷ os) = o.value
value_at (suc n) (o ∷ os) = value_at n os

-- Whether a text ends with an odd number of backslashes: in one that begins escaped or not.
abbrev pub ends_escaped : Bool → Text → Bool
ends_escaped escaped [] = escaped
ends_escaped escaped (c ∷ s) = ends_escaped (not escaped && c == 0x5c) s

-- What the four options of an image are read as.
pub record LinksRead (alt url : Text) (options : List LinkOption) : Type 0 where
  pub direct : value_at 0 options ≡ url
  pub markdown :
      read_markdown (value_at 1 options)
      ≡ (if ends_escaped false alt then none else some (alt, url))
  pub html : read_html (value_at 2 options) ≡ some (alt, url)
  pub bbcode : read_bbcode (value_at 3 options) ≡ some url
