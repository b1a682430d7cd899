-- ===== src/Api/Json.antt =====
-- JSON values. A text of JSON is represented by the value that it is the text of; of numbers there are
-- those that the client sends: identifiers, pages and sizes.
use Prim.Native.String.{String}
use text.Mathlib.Text.{◌==◌ as ◌=ₛ◌}
use omni_store.Common.{
  ℕ, Bool, true, false, not, Option, none, some, List, [], ◌∷◌, ◌==◌, if◌then◌else◌,
}
use omni_store.Texts.{Text}

mutual
  pub data Json : Type 0 where
    null : Json
    boolean : Bool → Json
    number : ℕ → Json
    str : Text → Json
    array : Items → Json
    object : Fields → Json

  pub data Items : Type 0 where
    nil : Items
    cons : Json → Items → Items

  pub data Fields : Type 0 where
    end : Fields
    field : String → Json → Fields → Fields

abbrev pub fields : List (String × Json) → Fields
fields [] = end
fields ((k, v) ∷ fs) = field k v (fields fs)

abbrev pub obj : List (String × Json) → Json
obj fs = object (fields fs)

abbrev pub items : List Json → Items
items [] = nil
items (x ∷ xs) = cons x (items xs)

abbrev pub texts_of : List Text → List Json
texts_of [] = []
texts_of (t ∷ ts) = str t ∷ texts_of ts

-- The value of a key; the last one counts when a text has it twice.
unfoldable pub find : String → Fields → Option Json
find k end = none
find k (field j v fs) =
    let rest = find k fs in elim rest [ some w ↦ some w | none ↦ if j =ₛ k then some v else none ]

-- `value.key` for a value that is not null, `none` being undefined.
unfoldable pub member : String → Json → Option Json
unfolding find
member k (object fs) = find k fs
member k _ = none

-- `a ?? b`.
unfoldable pub or_else : Option Json → Json → Json
or_else none d = d
or_else (some null) d = d
or_else (some v) d = v

-- Whether a value counts as true.
unfoldable pub truthy : Option Json → Bool
truthy none = false
truthy (some null) = false
truthy (some (boolean b)) = b
truthy (some (number n)) = not (n == 0)
truthy (some (str [])) = false
truthy (some _) = true
