-- ===== src/AnonymousUpload/Links.antt =====
-- web/src/pages/AnonymousUpload.tsx: the links of an uploaded image, which are pasted into other pages.
use omni_store.Common.{
  ℕ, Bool, false, ◌||◌, ◌&&◌, not, none, some, List, [], ◌∷◌, ◌++◌, keep, any, leb, ◌==◌,
  if◌then◌else◌, if_split, ◌≡◌, refl, arith, All,
}
use omni_store.Texts.{Text}
use omni_store.Uri.Bytes.{codes}
use omni_store.AnonymousUpload.{UploadItem}

-- White space and line ends, as `trim` takes them away.
unfoldable pub is_space : ℕ → Bool
is_space c =
    (leb 9 c && leb c 13)
    || (leb 0x2000 c && leb c 0x200a)
    || any (λ d. c == d)
        (32 ∷ 0xa0 ∷ 0x1680 ∷ 0x2028 ∷ 0x2029 ∷ 0x202f ∷ 0x205f ∷ 0x3000 ∷ 0xfeff ∷ [])

unfoldable pub trim_start : Text → Text
unfolding is_space
trim_start [] = []
trim_start (c ∷ s) = let rest = trim_start s in if is_space c then rest else c ∷ s

-- A space at the end goes where only spaces follow.
abbrev pub cons_unless_end : ℕ → Text → Text
cons_unless_end c [] = if is_space c then [] else c ∷ []
cons_unless_end c (d ∷ s) = c ∷ d ∷ s

unfoldable pub trim_end : Text → Text
unfolding is_space
trim_end [] = []
trim_end (c ∷ s) = cons_unless_end c (trim_end s)

unfoldable pub trim : Text → Text
unfolding trim_start trim_end
trim s = trim_end (trim_start s)

-- The characters of `/[\[\]<>"']/`.
abbrev pub is_markup : ℕ → Bool
is_markup c = any (λ d. c == d) (b'[' ∷ b']' ∷ b'<' ∷ b'>' ∷ b'"' ∷ 39 ∷ [])

abbrev pub or_image : Text → Text
or_image [] = codes "image"
or_image (c ∷ s) = c ∷ s

unfoldable pub clean_alt_text : Text → Text
unfolding trim
clean_alt_text filename = or_image (trim (keep (λ c. not (is_markup c)) filename))

pub data LinkFormat : Type 0 where
  direct markdown html bbcode : LinkFormat

pub record LinkOption : Type 0 where
  pub key : LinkFormat
  pub value : Text

unfoldable pub markdown_link : Text → Text → Text
markdown_link alt url = b'!' ∷ b'[' ∷ alt ++ (b']' ∷ b'(' ∷ url ++ (b')' ∷ []))

unfoldable pub html_link : Text → Text → Text
html_link alt url = codes "<img src=\"" ++ url ++ (codes "\" alt=\"" ++ (alt ++ codes "\" />"))

abbrev pub options_for : Text → Text → List LinkOption
options_for alt [] = []
options_for alt (c ∷ url) =
    record { key = direct; value = c ∷ url }
    ∷ record { key = markdown; value = markdown_link alt (c ∷ url) }
    ∷ record { key = html; value = html_link alt (c ∷ url) }
    ∷ record { key = bbcode; value = codes "[img]" ++ (c ∷ url) ++ codes "[/img]" }
    ∷ []

-- The label of an option, which is shown beside it, is left out.
unfoldable pub get_link_options : UploadItem → List LinkOption
unfolding clean_alt_text markdown_link html_link
get_link_options item = elim item.url [
  | none ↦ []
  | some url ↦ options_for (clean_alt_text item.file.file.name) url
]

abbrev pub Plain : ℕ → Type 0
Plain c = is_markup c ≡ false

keep-Plain : (s : Text) → All Plain (keep (λ c. not (is_markup c)) s)
keep-Plain [] = tt
keep-Plain (c ∷ s) =
    if_split (All Plain) (not (is_markup c)) (λ h. (ground arith, keep-Plain s)) (λ h. keep-Plain s)

trim_start-Plain : (s : Text) → All Plain s → All Plain (trim_start s)
unfolding trim_start
trim_start-Plain [] h = tt
trim_start-Plain (c ∷ s) h =
    if_split (All Plain) (is_space c) (λ e. trim_start-Plain s h.1) (λ e. h)

cons_unless_end-Plain : (c : ℕ) (s : Text) → Plain c → All Plain s → All Plain (cons_unless_end c s)
cons_unless_end-Plain c [] h k = if_split (All Plain) (is_space c) (λ e. tt) (λ e. (h, tt))
cons_unless_end-Plain c (d ∷ s) h k = (h, k)

trim_end-Plain : (s : Text) → All Plain s → All Plain (trim_end s)
unfolding trim_end
trim_end-Plain [] h = tt
trim_end-Plain (c ∷ s) h = cons_unless_end-Plain c (trim_end s) h.0 (trim_end-Plain s h.1)

or_image-Plain : (s : Text) → All Plain s → All Plain (or_image s)
or_image-Plain [] h = (refl, (refl, (refl, (refl, (refl, tt)))))
or_image-Plain (c ∷ s) h = h

pub clean_alt_text-Plain : (name : Text) → All Plain (clean_alt_text name)
unfolding clean_alt_text trim
clean_alt_text-Plain name =
    or_image-Plain _ (trim_end-Plain _ (trim_start-Plain _ (keep-Plain name)))
