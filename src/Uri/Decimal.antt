-- ===== src/Uri/Decimal.antt =====
-- `String(n)` of a natural number.
use omni_store.Common.{
  ℕ, zero, suc, ◌+◌, ◌-◌, ◌*◌, ◌/◌, ◌%◌, ◌≤◌, [], ◌∷◌, ◌++◌, ltb, if◌then◌else◌, if_split, ◌≡◌,
  refl, ap, ◌∙◌, arith, All,
}
use omni_store.Texts.{Text}
use omni_store.Uri.Bytes.{IsByte, All-append}
use omni_store.Uri.Escape.{percent, encode_all, is_unreserved}

-- The first argument is fuel: each round divides by ten, and the number itself is enough.
unfoldable pub digits_from : ℕ → ℕ → Text
digits_from zero n = (b'0' + n % 10) ∷ []
digits_from (suc fuel) n =
    let front = digits_from fuel (n / 10) in
    if ltb n 10 then (b'0' + n % 10) ∷ [] else front ++ ((b'0' + n % 10) ∷ [])

unfoldable pub decimal : ℕ → Text
unfolding digits_from
decimal n = digits_from n n

abbrev pub read_digits : ℕ → Text → ℕ
read_digits acc [] = acc
read_digits acc (c ∷ s) = read_digits (acc * 10 + (c - b'0')) s

abbrev pub IsDigit : ℕ → Type 0
IsDigit c = (b'0' ≤ c) × (c ≤ b'9')

digits-IsDigit : (fuel n : ℕ) → All IsDigit (digits_from fuel n)
unfolding digits_from
digits-IsDigit zero n = omega arith
digits-IsDigit (suc fuel) n =
    if_split (All IsDigit) (ltb n 10) (λ _. omega arith)
      (λ _.
        All-append IsDigit (digits_from fuel (n / 10)) ((b'0' + n % 10) ∷ [])
          (digits-IsDigit fuel (n / 10)) (omega arith))

read_digits-append :
    (s : Text) (acc c : ℕ) → read_digits acc (s ++ (c ∷ [])) ≡ read_digits acc s * 10 + (c - b'0')
read_digits-append [] acc c = refl
read_digits-append (d ∷ s) acc c = read_digits-append s (acc * 10 + (d - b'0')) c

read-digits_from : (fuel n : ℕ) → n ≤ fuel → read_digits 0 (digits_from fuel n) ≡ n
unfolding digits_from
read-digits_from zero n h = omega (arith, h)
read-digits_from (suc fuel) n h =
    if_split (λ s. read_digits 0 s ≡ n) (ltb n 10) (λ small. ground (arith, small))
      (λ large.
        let ih = read-digits_from fuel (n / 10) (ground (arith, h, large)) in
        read_digits-append (digits_from fuel (n / 10)) 0 (b'0' + n % 10) ∙ omega (arith, ih))

-- A number is read back from its digits.
pub read_digits-decimal : (n : ℕ) → read_digits 0 (decimal n) ≡ n
unfolding decimal
read_digits-decimal n = read-digits_from n n (omega arith)

percent_digits : (s : Text) → All IsDigit s → percent s ≡ s
unfolding percent encode_all is_unreserved
percent_digits [] h = refl
percent_digits (c ∷ s) h =
    if_split (λ t. t ++ percent s ≡ c ∷ s) (is_unreserved c)
      (λ _. ap (λ t. c ∷ t) (percent_digits s h.1)) (λ no. absurd (ground (arith, h.0, no)))

digit-IsByte : (s : Text) → All IsDigit s → All IsByte s
digit-IsByte [] h = tt
digit-IsByte (c ∷ s) h = (omega (arith, h.0), digit-IsByte s h.1)

-- The digits need no encoding.
pub percent-decimal : (n : ℕ) → percent (decimal n) ≡ decimal n
unfolding decimal
percent-decimal n = percent_digits (digits_from n n) (digits-IsDigit n n)

pub decimal-IsByte : (n : ℕ) → All IsByte (decimal n)
unfolding decimal
decimal-IsByte n = digit-IsByte (digits_from n n) (digits-IsDigit n n)
