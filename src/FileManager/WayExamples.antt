-- ===== src/FileManager/WayExamples.antt =====
-- Paths of web/src/pages/FileManager.tsx and components/files/Breadcrumb.tsx: the directory c in b in a.
use omni_store.Common.{List, [], ◌∷◌, ◌≡◌, refl, arith}
use omni_store.Texts.{Text, slash}
use omni_store.FilePreferences.{defaults}
use omni_store.FileManager.Navigation.{Location, go_to, up_one, path_segments, crumb_link}
use omni_store.FileManager.Wayfinding.{open_all, FindsBack, open_all-FindsBack}

abbrev top : Location
top = record {
  path = slash ∷ [];
  page = 2;
  filter = b'x' ∷ [];
  preferences = defaults;
  selected_names = [];
}

abbrev first_two : List Text
first_two = (b'a' ∷ []) ∷ (b'b' ∷ []) ∷ []

opened :
    (path_segments (open_all first_two top).path ≡ first_two)
    × (crumb_link 0 first_two ≡ b'/' ∷ b'a' ∷ [])
    × ((up_one (open_all first_two top)).path ≡ b'/' ∷ b'a' ∷ [])
unfolding path_segments crumb_link up_one go_to
opened = (refl, refl, refl)

open_all-FindsBack_example : FindsBack first_two (b'c' ∷ []) 0 top
open_all-FindsBack_example =
    open_all-FindsBack first_two (b'c' ∷ []) 0 top
      (((λ e. cc e), (omega arith, tt)), (((λ e. cc e), (omega arith, tt)), tt))
      ((λ e. cc e), (omega arith, tt)) refl
