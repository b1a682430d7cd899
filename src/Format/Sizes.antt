-- ===== src/Format/Sizes.antt =====
-- formatBytes (web/src/utils/format.ts) shows the size to the nearest digit of a unit that fits it.
use omni_store.Common.{
  ℕ, ◌+◌, ◌*◌, ◌≤◌, ◌<◌, [], ◌∷◌, ◌⊎◌, inl, inr, ltb, leb, if_split, ◌≡◌, refl, arith,
}
use omni_store.Texts.{Text}
use omni_store.Format.{
  SizeUnit, kb, mb, gb, tb, Scaled, divide, Size, bytes, whole, tenths, to_fixed, size_text,
  measure, format_bytes,
}

abbrev pub bytes_of : SizeUnit → ℕ
bytes_of kb = 1024
bytes_of mb = 1024 * 1024
bytes_of gb = 1024 * 1024 * 1024
bytes_of tb = 1024 * 1024 * 1024 * 1024

-- The size is at least one of the unit, and less than one of the next unit, if there is one.
abbrev pub InUnit : SizeUnit → ℕ → Type 0
InUnit u n = (bytes_of u ≤ n) × ((n < 1024 * bytes_of u) ⊎ (u ≡ tb))

-- What is shown is the size rounded to the digit that is shown last.
abbrev pub Shows : Size → ℕ → Type 0
Shows (bytes k) n = (k ≡ n) × (n < 1024)
Shows (whole k u) n =
    InUnit u n
    × (100 ≤ k)
    × (2 * n < (2 * k + 1) * bytes_of u)
    × (2 * k * bytes_of u ≤ 2 * n + bytes_of u)
Shows (tenths k u) n =
    InUnit u n
    × (10 ≤ k)
    × (k ≤ 1000)
    × (20 * n < (2 * k + 1) * bytes_of u)
    × (2 * k * bytes_of u ≤ 20 * n + bytes_of u)

abbrev scaled : SizeUnit → Scaled
scaled u = record { divisor = bytes_of u; unit = u }

to_fixed-Shows : (n : ℕ) (u : SizeUnit) → InUnit u n → Shows (to_fixed n (scaled u)) n
unfolding to_fixed
to_fixed-Shows n kb h =
    if_split (λ (s : Size). Shows s n) (leb (100 * bytes_of kb) n)
      (λ large. (h, ground (arith, large), omega arith, omega arith))
      (λ small. (h, omega (arith, h.0), ground (arith, small), omega arith, omega arith))
to_fixed-Shows n mb h =
    if_split (λ (s : Size). Shows s n) (leb (100 * bytes_of mb) n)
      (λ large. (h, ground (arith, large), omega arith, omega arith))
      (λ small. (h, omega (arith, h.0), ground (arith, small), omega arith, omega arith))
to_fixed-Shows n gb h =
    if_split (λ (s : Size). Shows s n) (leb (100 * bytes_of gb) n)
      (λ large. (h, ground (arith, large), omega arith, omega arith))
      (λ small. (h, omega (arith, h.0), ground (arith, small), omega arith, omega arith))
to_fixed-Shows n tb h =
    if_split (λ (s : Size). Shows s n) (leb (100 * bytes_of tb) n)
      (λ large. (h, ground (arith, large), omega arith, omega arith))
      (λ small. (h, omega (arith, h.0), ground (arith, small), omega arith, omega arith))

-- The loop ends at the unit that the size is in.
divide-InUnit : (n : ℕ) → 1024 ≤ n → Shows (to_fixed n (divide n 1024 kb (mb ∷ gb ∷ tb ∷ []))) n
unfolding divide
divide-InUnit n h =
    let motive = λ (v : Scaled). Shows (to_fixed n v) n in
    if_split motive (leb (bytes_of mb) n)
      (λ past_kb.
        if_split motive (leb (bytes_of gb) n)
          (λ past_mb.
            if_split motive (leb (bytes_of tb) n)
              (λ past_gb. to_fixed-Shows n tb (ground (arith, past_gb), inr refl))
              (λ in_gb. to_fixed-Shows n gb (ground (arith, past_mb), inl (ground (arith, in_gb)))))
          (λ in_mb. to_fixed-Shows n mb (ground (arith, past_kb), inl (ground (arith, in_mb)))))
      (λ in_kb. to_fixed-Shows n kb (h, inl (ground (arith, in_kb))))

measure-Shows : (n : ℕ) → Shows (measure n) n
unfolding measure
measure-Shows n =
    if_split (λ (s : Size). Shows s n) (ltb n 1024) (λ small. (refl, ground (arith, small)))
      (λ large. divide-InUnit n (ground (arith, large)))

-- A text that shows the size `n`.
pub record ShowsSize (n : ℕ) (t : Text) : Type 0 where
  pub size : Size
  pub text : t ≡ size_text size
  pub shown : Shows size n

-- A size below 1024 is shown as it is; a larger one is shown in a unit that it has at least one of, and
-- less than one of the next unit (but for the last unit), rounded half up to a whole number that is at
-- least 100, or to tenths from 1.0 to 100.0.
pub format_bytes-ShowsSize : (n : ℕ) → ShowsSize n (format_bytes n)
unfolding format_bytes
format_bytes-ShowsSize n = record { size = measure n; text = refl; shown = measure-Shows n }
