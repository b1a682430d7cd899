-- ===== src/Format.antt =====
-- web/src/utils/format.ts: formatBytes, for sizes that a JavaScript number holds exactly (below 2 ^ 53).
-- A quotient by a power of two is then exact too: `v` is kept as the size and what it is divided by.
mod Sizes
mod Examples
use omni_store.Common.{ℕ, ◌+◌, ◌*◌, ◌/◌, ◌%◌, List, [], ◌∷◌, ◌++◌, ltb, leb, if◌then◌else◌}
use omni_store.Texts.{Text}
use omni_store.Uri.Bytes.{codes}
use omni_store.Uri.Decimal.{decimal}

pub data SizeUnit : Type 0 where
  kb mb gb tb : SizeUnit

abbrev pub unit_text : SizeUnit → Text
unit_text kb = codes " KB"
unit_text mb = codes " MB"
unit_text gb = codes " GB"
unit_text tb = codes " TB"

pub record Scaled : Type 0 where
  pub divisor : ℕ
  pub unit : SizeUnit

-- The loop after its first round: `v` is the size over the divisor, and the units are those ahead.
unfoldable pub divide : ℕ → ℕ → SizeUnit → List SizeUnit → Scaled
divide n d u [] = record { divisor = d; unit = u }
divide n d u (w ∷ units) =
    let next = divide n (d * 1024) w units in
    if leb (d * 1024) n then next else record { divisor = d; unit = u }

-- What is shown: bytes, or a number of units, whole or in tenths.
pub data Size : Type 0 where
  bytes : ℕ → Size
  whole tenths : ℕ → SizeUnit → Size

-- toFixed(0) and toFixed(1) of a quotient: the nearest number, the larger one of two.
unfoldable pub to_fixed : ℕ → Scaled → Size
to_fixed n v =
    if leb (100 * v.divisor) n
    then whole ((2 * n + v.divisor) / (2 * v.divisor)) v.unit
    else tenths ((20 * n + v.divisor) / (2 * v.divisor)) v.unit

abbrev pub size_text : Size → Text
size_text (bytes n) = decimal n ++ codes " B"
size_text (whole k u) = decimal k ++ unit_text u
size_text (tenths k u) = decimal (k / 10) ++ b'.' ∷ decimal (k % 10) ++ unit_text u

unfoldable pub measure : ℕ → Size
unfolding divide to_fixed
measure n = if ltb n 1024 then bytes n else to_fixed n (divide n 1024 kb (mb ∷ gb ∷ tb ∷ []))

unfoldable pub format_bytes : ℕ → Text
unfolding measure
format_bytes n = size_text (measure n)
