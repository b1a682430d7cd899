-- ===== src/FileManager/Pages.antt =====
-- The pager of web/src/pages/FileManager.tsx: totalPages and pageRange, for the page sizes that the
-- preferences allow.
use omni_store.Common.{
  ℕ, zero, suc, ◌+◌, ◌-◌, ◌*◌, ◌/◌, ◌≤◌, ◌<◌, max, Bool, true, false, List, [], ◌∷◌, length, any,
  leb, ◌==◌, if◌then◌else◌, if_split, ◌≡◌, refl, ap, arith,
}
use omni_store.FilePreferences.{PageSize, page_number}

-- `Math.max(1, Math.ceil(total / pageSize))`.
unfoldable pub total_pages : ℕ → PageSize → ℕ
total_pages total size = max 1 ((total + page_number size - 1) / page_number size)

-- A number or '…'.
pub data PageItem : Type 0 where
  page : ℕ → PageItem
  gap : PageItem

unfoldable pub pages_from : ℕ → ℕ → List PageItem
pages_from i zero = []
pages_from i (suc n) = page i ∷ pages_from (i + 1) n

unfoldable pub page_range : ℕ → ℕ → List PageItem
unfolding pages_from
page_range current total =
    if leb total 7
    then pages_from 1 total
    else if leb current 4
    then page 1 ∷ page 2 ∷ page 3 ∷ page 4 ∷ page 5 ∷ gap ∷ page total ∷ []
    else if leb (total - 3) current
    then page 1
      ∷ gap
      ∷ page (total - 4)
      ∷ page (total - 3)
      ∷ page (total - 2)
      ∷ page (total - 1)
      ∷ page total
      ∷ []
    else page 1
      ∷ gap
      ∷ page (current - 1)
      ∷ page current
      ∷ page (current + 1)
      ∷ gap
      ∷ page total
      ∷ []

-- From page `a` on the list goes up to page `z`: the next item is the next page, or a gap for two pages or
-- more.
abbrev pub Ascends : ℕ → ℕ → List PageItem → Type 0
Ascends a z [] = a ≡ z
Ascends a z (page b ∷ items) = (b ≡ a + 1) × Ascends b z items
Ascends a z (gap ∷ page b ∷ items) = (a + 2 < b) × Ascends b z items
Ascends a z (gap ∷ _) = ⊥

abbrev pub shows_page : ℕ → PageItem → Bool
shows_page n (page k) = k == n
shows_page n gap = false

-- The pager begins with page 1, goes up to the last page, has the current page, and has seven items at most.
abbrev pub WellShown : ℕ → ℕ → List PageItem → Type 0
WellShown current total [] = ⊥
WellShown current total (gap ∷ items) = ⊥
WellShown current total (page a ∷ items) =
    (a ≡ 1)
    × Ascends 1 total items
    × (any (shows_page current) (page a ∷ items) ≡ true)
    × (length (page a ∷ items) ≤ 7)

pages_from-Ascends : (n a z : ℕ) → a + n ≡ z → Ascends a z (pages_from (a + 1) n)
unfolding pages_from
pages_from-Ascends zero a z h = omega (arith, h)
pages_from-Ascends (suc n) a z h = (refl, pages_from-Ascends n (a + 1) z (omega (arith, h)))

length-pages_from : (n i : ℕ) → length (pages_from i n) ≡ n
unfolding pages_from
length-pages_from zero i = refl
length-pages_from (suc n) i = ap suc (length-pages_from n (i + 1))

pages_from-shows : (n i c : ℕ) → i ≤ c → c < i + n → any (shows_page c) (pages_from i n) ≡ true
unfolding pages_from
pages_from-shows zero i c h l = absurd (omega arith)
pages_from-shows (suc n) i c h l = ground (arith, pages_from-shows n (i + 1) c)

short_pager :
    (current total : ℕ)
    → 1 ≤ current
    → current ≤ total
    → total ≤ 7
    → WellShown current total (pages_from 1 total)
unfolding pages_from
short_pager current zero h l s = absurd (omega arith)
short_pager current (suc n) h l s = (
  refl,
  pages_from-Ascends n 1 (suc n) (omega arith),
  pages_from-shows (suc n) 1 current h (omega arith),
  omega (arith, length-pages_from n 2),
)

page_range-WellShown :
    (current total : ℕ)
    → 1 ≤ current
    → current ≤ total
    → WellShown current total (page_range current total)
unfolding page_range
page_range-WellShown current total h l =
    if_split (WellShown current total) (leb total 7)
      (λ few. short_pager current total h l (ground (arith, few)))
      (λ many.
        if_split (WellShown current total) (leb current 4) (λ early. ground (arith, h, many, early))
          (λ late.
            if_split (WellShown current total) (leb (total - 3) current)
              (λ last. ground (arith, l, many, late, last))
              (λ middle. ground (arith, many, late, middle))))

-- Every item of a directory is on one of the pages that are counted.
item_paged :
    (i total : ℕ) (size : PageSize) → i < total → i / page_number size < total_pages total size
unfolding total_pages
item_paged i total PageSize.twenty h = omega (arith, h)
item_paged i total PageSize.fifty h = omega (arith, h)
item_paged i total PageSize.hundred h = omega (arith, h)

-- The last page of a directory that has an item is not empty.
last_page :
    (total : ℕ) (size : PageSize)
    → 0 < total
    → (total_pages total size - 1) * page_number size < total
unfolding total_pages
last_page total PageSize.twenty h = omega (arith, h)
last_page total PageSize.fifty h = omega (arith, h)
last_page total PageSize.hundred h = omega (arith, h)

-- In a directory of `total` items, of which there is one at place `i`, that item is on one of the counted
-- pages, and the last of them is not empty; and for a current page among them the pager begins with page 1,
-- goes up to the last page, leaves no fewer than two pages out at a gap, has the current page, and has
-- seven items at most.
pub pager-WellShown :
    (i total current : ℕ) (size : PageSize)
    → i < total
    → 1 ≤ current
    → current ≤ total_pages total size
    → (i / page_number size < total_pages total size)
      × ((total_pages total size - 1) * page_number size < total)
      × WellShown current (total_pages total size) (page_range current (total_pages total size))
pager-WellShown i total current size h low high = (
  item_paged i total size h,
  last_page total size (omega (arith, h)),
  page_range-WellShown current (total_pages total size) low high,
)
