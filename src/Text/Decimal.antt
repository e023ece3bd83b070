-- ===== src/Text/Decimal.antt =====
-- Numbers as `fmt` prints them: `%d` and `%010d`.
use tecora_be.Prelude.{
  false, refl, All, is_empty, ℕ, zero, suc, ◌+◌, ◌-◌, ◌*◌, ◌/◌, ◌%◌, ◌^◌, ◌≤◌, ◌<◌, ◌≡◌, ◌∙◌, [],
  ◌∷◌, ◌++◌, arith, ltb, length, length-append, if◌then◌else◌, Bool-cases, inl, inr,
}
use native.Mathlib.Nat.{pow-suc}
use tecora_be.Text.{Text}

-- The last argument is what is already printed. A number has fewer digits than it counts.
unfoldable pub decimal_from : ℕ → ℕ → Text → Text
decimal_from zero n printed = printed
decimal_from (suc fuel) n printed =
    let rest = decimal_from fuel (n / 10) ((48 + n % 10) ∷ printed) in
    if ltb n 10 then (48 + n) ∷ printed else rest

unfoldable pub decimal : ℕ → Text
unfolding decimal_from
decimal n = decimal_from (suc n) n []

abbrev pub zeros : ℕ → Text
zeros zero = []
zeros (suc n) = b'0' ∷ zeros n

-- `%0wd`
unfoldable pub padded : ℕ → ℕ → Text
unfolding decimal
padded width n = zeros (width - length (decimal n)) ++ decimal n

-- The number that digits write.
unfoldable pub read_digits : ℕ → Text → ℕ
read_digits read [] = read
read_digits read (c ∷ s) = read_digits (read * 10 + (c - 48)) s

read_digits-decimal_from :
    (fuel n : ℕ) (printed : Text)
    → n < fuel
    → read_digits 0 (decimal_from fuel n printed) ≡ read_digits n printed
unfolding read_digits decimal_from
read_digits-decimal_from zero n printed h = elim h [ ]
read_digits-decimal_from (suc fuel) n printed h = elim (Bool-cases (ltb n 10)) [
  | inl digit ↦ ground arith
  | inr more ↦
      let step : n / 10 * 10 + (48 + n % 10 - 48) ≡ n = omega arith in
      rw (
        more,
        read_digits-decimal_from fuel (n / 10) ((48 + n % 10) ∷ printed) (ground arith),
        step,
      )
]

-- The printed digits are read back as the number.
pub read_digits-decimal : (n : ℕ) → read_digits 0 (decimal n) ≡ n
unfolding decimal
read_digits-decimal n =
    read_digits-decimal_from (suc n) n [] (omega arith) ∙ (unfold read_digits in refl)

length-zeros : (n : ℕ) → length (zeros n) ≡ n
length-zeros zero = refl
length-zeros (suc n) = omega (arith, length-zeros n)

length-decimal_from :
    (fuel n k : ℕ) (printed : Text)
    → n < 10 ^ suc k
    → length (decimal_from fuel n printed) ≤ suc k + length printed
unfolding decimal_from
length-decimal_from zero n k printed h = omega arith
length-decimal_from (suc fuel) n zero printed h = ground arith
length-decimal_from (suc fuel) n (suc k) printed h = elim (Bool-cases (ltb n 10)) [
  | inl digit ↦ rw digit (omega arith)
  | inr more ↦
      let small : n / 10 < 10 ^ suc k = omega (arith, pow-suc 10 (suc k)) in
      rw more (omega (arith, length-decimal_from fuel (n / 10) k ((48 + n % 10) ∷ printed) small))
]

-- A number of at most ten digits is padded to exactly ten.
pub length-padded : (n : ℕ) → n < 10 ^ 10 → length (padded 10 n) ≡ 10
unfolding padded decimal
length-padded n h = omega (
  arith,
  length-append {0} (zeros (10 - length (decimal n))) (decimal n),
  length-zeros (10 - length (decimal n)),
  length-decimal_from (suc n) n 9 [] h,
)

abbrev pub IsDigit : ℕ → Type 0
IsDigit c = (48 ≤ c) × (c ≤ 57)

-- Digits, at least one, that write the number.
abbrev pub Writes : Text → ℕ → Type 0
Writes digits n = All IsDigit digits × (is_empty digits ≡ false) × (read_digits 0 digits ≡ n)

decimal_from-IsDigit :
    (fuel n : ℕ) (printed : Text) → All IsDigit printed → All IsDigit (decimal_from fuel n printed)
unfolding decimal_from
decimal_from-IsDigit zero n printed h = h
decimal_from-IsDigit (suc fuel) n printed h = elim (Bool-cases (ltb n 10)) [
  | inl digit ↦ rw digit ((ground arith, ground arith), h)
  | inr more ↦
      rw more (
        decimal_from-IsDigit fuel (n / 10) ((48 + n % 10) ∷ printed)
          ((omega arith, omega arith), h))
]

decimal_from-nonempty :
    (fuel n c : ℕ) (printed : Text) → is_empty (decimal_from fuel n (c ∷ printed)) ≡ false
unfolding decimal_from
decimal_from-nonempty zero n c printed = refl
decimal_from-nonempty (suc fuel) n c printed = elim (Bool-cases (ltb n 10)) [
  | inl digit ↦ rw digit refl
  | inr more ↦ rw more (decimal_from-nonempty fuel (n / 10) (48 + n % 10) (c ∷ printed))
]

decimal-nonempty : (n : ℕ) → is_empty (decimal n) ≡ false
unfolding decimal
decimal-nonempty n =
    unfold decimal_from in
    elim (Bool-cases (ltb n 10)) [
      | inl digit ↦ rw digit refl
      | inr more ↦ rw more (decimal_from-nonempty n (n / 10) (48 + n % 10) [])
    ]

pub decimal-Writes : (n : ℕ) → Writes (decimal n) n
decimal-Writes n = (
  unfold decimal in decimal_from-IsDigit (suc n) n [] tt,
  decimal-nonempty n,
  read_digits-decimal n,
)

zeros-Writes : (k n : ℕ) (digits : Text) → Writes digits n → Writes (zeros k ++ digits) n
unfolding read_digits
zeros-Writes zero n digits h = h
zeros-Writes (suc k) n digits h =
    let (all, some_digit, read) = zeros-Writes k n digits h in
    (((omega arith, omega arith), all), refl, read)

pub padded-Writes : (width n : ℕ) → Writes (padded width n) n
unfolding padded
padded-Writes width n = zeros-Writes (width - length (decimal n)) n (decimal n) (decimal-Writes n)
