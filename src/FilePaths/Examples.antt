-- ===== src/FilePaths/Examples.antt =====
-- The paths of web/src/utils/filePaths.ts at "/docs", "a.md" and the root.
use omni_store.Common.{true, [], ◌∷◌, ◌≡◌, ◌↔◌, refl, arith}
use omni_store.Texts.{Text, slash}
use omni_store.FilePaths.{normalize_path, is_path_inside}
use omni_store.FilePaths.Laws.{IsName, FirstOk, LastOk, root, normalize_path-normal}
use omni_store.FilePaths.Inside.{Extends, is_path_inside_iff, is_path_inside-root}

-- "//docs/" and "a.md".
abbrev docs : Text
docs = slash ∷ slash ∷ 100 ∷ 111 ∷ 99 ∷ 115 ∷ slash ∷ []

abbrev note : Text
note = 97 ∷ 46 ∷ 109 ∷ 100 ∷ []

note-IsName : IsName note
note-IsName = (λ e. cc, omega arith)

docs_normal : normalize_path docs ≡ slash ∷ 100 ∷ 111 ∷ 99 ∷ 115 ∷ []
unfolding normalize_path
docs_normal = refl

normalize_path-normal_example :
    (normalize_path (normalize_path docs) ≡ normalize_path docs)
    × ((t : Text) × (normalize_path docs ≡ slash ∷ t) × FirstOk t × LastOk t)
normalize_path-normal_example = normalize_path-normal docs

is_path_inside_iff_example :
    (is_path_inside note docs ≡ true) ↔ Extends (normalize_path note) (normalize_path docs)
is_path_inside_iff_example = is_path_inside_iff note docs

is_path_inside-root_example : (is_path_inside note root ≡ true) ↔ (normalize_path note ≡ root)
is_path_inside-root_example = is_path_inside-root note root (unfold normalize_path in refl)
