-- ===== src/FileManager/PagerExamples.antt =====
-- Pagers of web/src/pages/FileManager.tsx: the fifth of nine pages of twenty, and the ends.
use omni_store.Common.{◌-◌, ◌*◌, ◌/◌, ◌<◌, [], ◌∷◌, ◌≡◌, refl, arith}
use omni_store.FilePreferences.{PageSize}
use omni_store.FileManager.Pages.{page, gap, total_pages, page_range, WellShown, pager-WellShown}

nine_pages : total_pages 165 PageSize.twenty ≡ 9
unfolding total_pages
nine_pages = refl

ranges :
    (page_range 2 9 ≡ page 1 ∷ page 2 ∷ page 3 ∷ page 4 ∷ page 5 ∷ gap ∷ page 9 ∷ [])
    × (page_range 5 9 ≡ page 1 ∷ gap ∷ page 4 ∷ page 5 ∷ page 6 ∷ gap ∷ page 9 ∷ [])
    × (page_range 8 9 ≡ page 1 ∷ gap ∷ page 5 ∷ page 6 ∷ page 7 ∷ page 8 ∷ page 9 ∷ [])
    × (page_range 2 3 ≡ page 1 ∷ page 2 ∷ page 3 ∷ [])
unfolding page_range
ranges = (refl, refl, refl, refl)

pager-WellShown_example :
    (40 / 20 < total_pages 165 PageSize.twenty)
    × ((total_pages 165 PageSize.twenty - 1) * 20 < 165)
    × WellShown 5 (total_pages 165 PageSize.twenty) (page_range 5 (total_pages 165 PageSize.twenty))
pager-WellShown_example =
    pager-WellShown 40 165 5 PageSize.twenty (omega arith) (omega arith)
      (unfold total_pages in omega arith)
