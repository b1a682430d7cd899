-- ===== src/AnonymousUpload/LinkReading.antt =====
-- The links that web/src/pages/AnonymousUpload.tsx offers, as they are read.
use omni_store.Common.{
  ℕ, Bool, true, false, ◌&&◌, not, Option, none, some, [], ◌∷◌, ◌++◌, ◌==◌, if◌then◌else◌, if_split,
  ◌≡◌, ◌≢◌, refl, ap, ◌∙◌, arith, All, All-append, Bool-cases, inl, inr,
}
use omni_store.Texts.{Text}
use omni_store.Uri.Bytes.{codes}
use omni_store.Api.Calls.{◌>>=◌}
use omni_store.AnonymousUpload.{UploadItem}
use omni_store.AnonymousUpload.Links.{
  is_markup, clean_alt_text, markdown_link, html_link, options_for, get_link_options, Plain,
  clean_alt_text-Plain,
}
use omni_store.AnonymousUpload.LinkReaders.{
  after, consed, up_to, read_html, is_line_end, label, is_url_unit, destination, read_markdown,
  read_bbcode, ends_escaped, LinksRead,
}

up_to-append :
    (q : ℕ) (s t : Text) → All (λ c. (c == q) ≡ false) s → up_to q (s ++ (q ∷ t)) ≡ some (s, t)
up_to-append q [] t h = ground arith
up_to-append q (c ∷ s) t h = rw (h.0, up_to-append q s t h.1) refl

-- What goes on with a description.
abbrev GoesOn : ℕ → Type 0
GoesOn c = ((c == b']') ≡ false) × (is_line_end c ≡ false)

label-more :
    (e : Bool) (c : ℕ) (s : Text)
    → GoesOn c
    → label e (c ∷ s) ≡ consed c (label (not e && c == 0x5c) s)
label-more true c s h = rw (h.1) refl
label-more false c s h = rw (h.0, h.1) refl

label-append :
    (e : Bool) (s t : Text)
    → All GoesOn s
    → ends_escaped e s ≡ false
    → label e (s ++ (b']' ∷ t)) ≡ some (s, t)
label-append e [] t h k = rw k refl
label-append e (c ∷ s) t h k =
    label-more e c (s ++ (b']' ∷ t)) h.0
    ∙ ap (consed c) (label-append (not e && c == 0x5c) s t h.1 k)

-- A description whose end is escaped goes on to the end of the text.
label-none : (e : Bool) (s : Text) → All GoesOn s → label e s ≡ none
label-none e [] h = refl
label-none e (c ∷ s) h =
    label-more e c s h.0 ∙ ap (consed c) (label-none (not e && c == 0x5c) s h.1)

label-escaped :
    (e : Bool) (s t : Text)
    → All GoesOn s
    → All GoesOn t
    → ends_escaped e s ≡ true
    → label e (s ++ (b']' ∷ t)) ≡ none
label-escaped e [] t h l k = rw (k, label-none false t l) refl
label-escaped e (c ∷ s) t h l k =
    label-more e c (s ++ (b']' ∷ t)) h.0
    ∙ ap (consed c) (label-escaped (not e && c == 0x5c) s t h.1 l k)

destination-append :
    (s : Text) → All (λ c. is_url_unit c ≡ true) s → destination (s ++ (b')' ∷ [])) ≡ some s
destination-append [] h = refl
destination-append (c ∷ s) h =
    if_split (λ (o : Option Text). o ≡ some (c ∷ s)) (c == b')')
      (λ y. absurd (ground (arith, y, h.0)))
      (λ n.
        if_split (λ (o : Option Text). o ≡ some (c ∷ s)) (is_url_unit c)
          (λ y. rw (destination-append s h.1) refl) (λ z. absurd (ground (arith, z, h.0))))

url-GoesOn : (s : Text) → All (λ c. is_url_unit c ≡ true) s → All GoesOn s
url-GoesOn [] h = tt
url-GoesOn (c ∷ s) h = ((ground (arith, h.0), ground (arith, h.0)), url-GoesOn s h.1)

url-without :
    (q : ℕ) (s : Text)
    → is_url_unit q ≡ false
    → All (λ c. is_url_unit c ≡ true) s
    → All (λ c. (c == q) ≡ false) s
url-without q [] n h = tt
url-without q (c ∷ s) n h = (ground (arith, n, h.0), url-without q s n h.1)

alt-without : (q : ℕ) (s : Text) → is_markup q ≡ true → All Plain s → All (λ c. (c == q) ≡ false) s
alt-without q [] m h = tt
alt-without q (c ∷ s) m h = (ground (arith, m, h.0), alt-without q s m h.1)

alt-GoesOn : (s : Text) → All Plain s → All (λ c. is_line_end c ≡ false) s → All GoesOn s
alt-GoesOn [] h l = tt
alt-GoesOn (c ∷ s) h l = ((ground (arith, h.0), l.0), alt-GoesOn s h.1 l.1)

-- A description in its brackets, and the destination after it.
abbrev linked : Option (Text × Text) → Option (Text × Text)
linked o = do (alt, b) ← o; c ← after (codes "(") b; url ← destination c; some (alt, url)

read_markdown-link :
    (alt url : Text)
    → All GoesOn alt
    → All (λ c. is_url_unit c ≡ true) url
    → read_markdown (markdown_link alt url)
      ≡ (if ends_escaped false alt then none else some (alt, url))
unfolding markdown_link
read_markdown-link alt url h u = elim (Bool-cases (ends_escaped false alt)) [
  | inl e ↦ rw e (
      ap linked (
        label-escaped false alt (b'(' ∷ url ++ (b')' ∷ [])) h
          ((refl, refl), All-append GoesOn url (b')' ∷ []) (url-GoesOn url u) ((refl, refl), tt))
          e))
  | inr e ↦ rw e (
      ap linked (label-append false alt (b'(' ∷ url ++ (b')' ∷ [])) h e)
      ∙ rw (destination-append url u) refl)
]

read_html-link :
    (alt url : Text)
    → All Plain alt
    → All (λ c. is_url_unit c ≡ true) url
    → read_html (html_link alt url) ≡ some (alt, url)
unfolding html_link
read_html-link alt url h u =
    rw
      (up_to-append b'"' url (codes " alt=\"" ++ (alt ++ codes "\" />"))
        (url-without b'"' url refl u))
      (rw (up_to-append b'"' alt (codes " />") (alt-without b'"' alt refl h)) refl)

read_bbcode-link :
    (url : Text)
    → All (λ c. is_url_unit c ≡ true) url
    → read_bbcode (codes "[img]" ++ url ++ codes "[/img]") ≡ some url
read_bbcode-link url u =
    rw (up_to-append b'[' url (codes "/img]") (url-without b'[' url refl u)) refl

options-LinksRead :
    (alt url : Text)
    → All Plain alt
    → All (λ c. is_line_end c ≡ false) alt
    → url ≢ []
    → All (λ c. is_url_unit c ≡ true) url
    → LinksRead alt url (options_for alt url)
options-LinksRead alt [] p l n u = absurd (n refl)
options-LinksRead alt (c ∷ url) p l n u = record {
  direct = refl;
  markdown = read_markdown-link alt (c ∷ url) (alt-GoesOn alt p l) u;
  html = read_html-link alt (c ∷ url) p u;
  bbcode = read_bbcode-link (c ∷ url) u;
}

-- For an uploaded image whose URL has no space, control character, double quote, angle, round or square bracket,
-- backslash, backtick or `&`, and whose cleaned name has no line end, and for links that are pasted alone: the HTML
-- element is read with the URL as its `src` and the cleaned name as its `alt`, before character references in the
-- name are decoded; the BBCode with the URL, and the direct link is the URL; the Markdown image is read with the
-- cleaned name as its description, before escapes and inline markup in it are decoded, and the URL as its
-- destination, unless the name ends with an odd number of backslashes: then there is no image.
pub get_link_options-LinksRead :
    (item : UploadItem) (url : Text)
    → item.url ≡ some url
    → url ≢ []
    → All (λ c. is_url_unit c ≡ true) url
    → All (λ c. is_line_end c ≡ false) (clean_alt_text item.file.file.name)
    → LinksRead (clean_alt_text item.file.file.name) url (get_link_options item)
unfolding get_link_options
get_link_options-LinksRead item url e n u l = rw e (
    options-LinksRead (clean_alt_text item.file.file.name) url
      (clean_alt_text-Plain item.file.file.name) l n u)
