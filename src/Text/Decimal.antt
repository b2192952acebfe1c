-- ===== src/Text/Decimal.antt =====
-- The decimal form of an unsigned number: `Display` of an integer, and `str::parse::<u64>`.
use sui_gas_pool.Prelude.{
  ℕ, zero, suc, ◌+◌, ◌-◌, ◌*◌, ◌/◌, ◌%◌, ◌^◌, ◌<◌, ◌≡◌, refl, ◌∙◌, ◌≢◌, Bool, ◌&&◌, Option, none,
  some, List, [], ◌∷◌, arith, ltb, leb, ◌==◌, if◌then◌else◌, All, contains, true, false, Bool-cases,
  inl, inr,
}

abbrev pub Text : Type 0
Text = List ℕ

abbrev pub IsDigit : ℕ → Type 0
IsDigit c = (48 < suc c) × (c < 58)

abbrev is_digit : ℕ → Bool
is_digit c = leb b'0' c && leb c b'9'

-- Least significant digit last: each round divides by ten. A number has at most as many digits as
-- its value plus one, which is the fuel that `show` gives.
digits_of : ℕ → ℕ → Text → Text
digits_of zero n out = out
digits_of (suc fuel) n out =
    let more = digits_of fuel (n / 10) ((b'0' + n % 10) ∷ out) in
    if ltb n 10 then (b'0' + n) ∷ out else more

unfoldable pub show : ℕ → Text
unfolding digits_of
show n = digits_of (suc n) n []

scan : ℕ → Text → Option ℕ
scan acc [] = some acc
scan acc (c ∷ t) = if is_digit c then scan (acc * 10 + (c - b'0')) t else none

-- A text of one or more digits.
unfoldable pub read_nat : Text → Option ℕ
unfolding scan
read_nat [] = none
read_nat (c ∷ t) = scan 0 (c ∷ t)

abbrev in_u64 : Option ℕ → Option ℕ
in_u64 none = none
in_u64 (some n) = if ltb n (2 ^ 64) then some n else none

-- `parse::<u64>()`: a plus sign is allowed, and a value out of range is an error.
unfoldable pub parse_u64 : Text → Option ℕ
unfolding read_nat
parse_u64 [] = none
parse_u64 (c ∷ t) = if c == b'+' then in_u64 (read_nat t) else in_u64 (read_nat (c ∷ t))

-- Scanning the digits of a number in front of a text is going on from that number.
scan-digits_of : (fuel n : ℕ) (out : Text) → n < fuel → scan 0 (digits_of fuel n out) ≡ scan n out
unfolding scan digits_of
scan-digits_of zero n out h = absurd (omega arith)
scan-digits_of (suc fuel) n out h =
    ground (arith, scan-digits_of fuel (n / 10) ((b'0' + n % 10) ∷ out))

digits_of-IsDigit : (fuel n : ℕ) (out : Text) → All IsDigit out → All IsDigit (digits_of fuel n out)
unfolding digits_of
digits_of-IsDigit zero n out h = h
digits_of-IsDigit (suc fuel) n out h =
    ground (arith, digits_of-IsDigit fuel (n / 10) ((b'0' + n % 10) ∷ out))

digits_of-ne-nil : (fuel n : ℕ) (out : Text) → out ≢ [] → digits_of fuel n out ≢ []
unfolding digits_of
digits_of-ne-nil zero n out h = h
digits_of-ne-nil (suc fuel) n out h =
    ground (arith, digits_of-ne-nil fuel (n / 10) ((b'0' + n % 10) ∷ out))

pub show-IsDigit : (n : ℕ) → All IsDigit (show n)
unfolding show
show-IsDigit n = digits_of-IsDigit (suc n) n [] tt

show-ne-nil : (n : ℕ) → show n ≢ []
unfolding show
show-ne-nil n = ground (arith, digits_of-ne-nil n (n / 10) ((b'0' + n % 10) ∷ []))

read_nat-scan : (t : Text) → t ≢ [] → read_nat t ≡ scan 0 t
unfolding read_nat
read_nat-scan [] h = absurd (h refl)
read_nat-scan (c ∷ t) h = refl

pub read_nat-show : (n : ℕ) → read_nat (show n) ≡ some n
read_nat-show n = read_nat-scan (show n) (show-ne-nil n) ∙ scanned
  where
    scanned : scan 0 (show n) ≡ some n
    scanned = unfold show scan in scan-digits_of (suc n) n [] (omega arith)

parse_u64-read_nat : (t : Text) → All IsDigit t → parse_u64 t ≡ in_u64 (read_nat t)
unfolding parse_u64
parse_u64-read_nat [] h = refl
parse_u64-read_nat (c ∷ t) h = ground arith

pub parse_u64-show : (n : ℕ) → n < 2 ^ 64 → parse_u64 (show n) ≡ some n
parse_u64-show n h =
    rw (parse_u64-read_nat (show n) (show-IsDigit n), read_nat-show n) (ground arith)

scan-none :
    (acc : ℕ) (t : Text) (c : ℕ) → is_digit c ≡ false → contains t c ≡ true → scan acc t ≡ none
unfolding scan
scan-none acc [] c odd h = cc
scan-none acc (d ∷ t) c odd h = ground (arith, scan-none (acc * 10 + (d - b'0')) t c odd)

read_nat-none : (t : Text) (c : ℕ) → is_digit c ≡ false → contains t c ≡ true → read_nat t ≡ none
unfolding read_nat
read_nat-none [] c odd h = refl
read_nat-none (d ∷ t) c odd h = scan-none 0 (d ∷ t) c odd h

-- A text with another character is not read.
pub parse_u64-none :
    (t : Text) (c : ℕ)
    → is_digit c ≡ false
    → (b'+' == c) ≡ false
    → contains t c ≡ true
    → parse_u64 t ≡ none
unfolding parse_u64
parse_u64-none [] c odd sign h = refl
parse_u64-none (d ∷ t) c odd sign h = elim (Bool-cases (d == b'+')) [
  | inl plus ↦
      let later : contains t c ≡ true = ground arith in rw (plus, read_nat-none t c odd later) refl
  | inr other ↦ rw (other, read_nat-none (d ∷ t) c odd h) refl
]
