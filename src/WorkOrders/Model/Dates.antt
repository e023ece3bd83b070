-- ===== src/WorkOrders/Model/Dates.antt =====
-- Dates as text: what `ParseDate` reads and `String` writes.
use tecora_be.Prelude.{
  ℕ, ◌+◌, ◌-◌, ◌*◌, ◌/◌, ◌%◌, ◌≤◌, ◌≡◌, refl, ap, ◌∙◌, true, false, ◌&&◌, [], ◌∷◌, ◌++◌, some,
  arith, ◌==◌, All, Bool-cases, Option-cases, inl, inr,
}
use tecora_be.Text.{Text, trim_space, is_space}
use tecora_be.Text.Trim.{trim_space_of_dense}
use tecora_be.Db.{Date, ok}
use tecora_be.WorkOrders.Model.{
  is_digit, is_calendar, days_in, checked, two_digits, read_date, parse_date, is_zero, digits_of,
  string,
}

-- Two digits are read back from the number that they write, and the other way round.
digits-two_digits :
    (a b : ℕ) → is_digit a ≡ true → is_digit b ≡ true → digits_of (two_digits a b) ≡ a ∷ b ∷ []
unfolding is_digit digits_of
digits-two_digits a b ha hb =
    let first : 48 + ((a - 48) * 10 + (b - 48)) / 10 % 10 ≡ a = ground arith in
    let second : 48 + ((a - 48) * 10 + (b - 48)) % 10 ≡ b = ground arith in rw (first, second) refl

two_digits_range : (n : ℕ) → n ≤ 99 → two_digits (48 + (n / 10) % 10) (48 + n % 10) ≡ n
two_digits_range n h = omega arith

two_digits-le : (a b : ℕ) → is_digit a ≡ true → is_digit b ≡ true → two_digits a b ≤ 99
unfolding is_digit
two_digits-le a b ha hb = ground arith

is_digit_of : (n : ℕ) → is_digit (48 + n % 10) ≡ true
unfolding is_digit
is_digit_of n = ground arith

dense_digit : (c : ℕ) → is_digit c ≡ true → is_space c ≡ false
unfolding is_digit is_space
dense_digit c h = ground arith

days-le : (y m : ℕ) → days_in y m ≤ 31
unfolding days_in
days-le y m = ground arith

-- A date of the calendar has numbers of two digits.
calendar_range : (d : Date) → is_calendar d ≡ true → (d.year ≤ 9999) × (d.month ≤ 99) × (d.day ≤ 99)
unfolding is_calendar
calendar_range d h = let few = days-le d.year d.month in ground arith

abbrev written : Date → Text
written d =
    digits_of (d.year / 100)
    ++ (digits_of (d.year % 100) ++ (b'-' ∷ (digits_of d.month ++ (b'-' ∷ digits_of d.day))))

read_date-written : (d : Date) → is_calendar d ≡ true → read_date (written d) ≡ some d
unfolding read_date digits_of
read_date-written d h =
    let (y, m, n) = calendar_range d h in
    let century = two_digits_range (d.year / 100) (omega arith) in
    let rest = two_digits_range (d.year % 100) (omega arith) in
    let whole : (d.year / 100) * 100 + d.year % 100 ≡ d.year = omega arith in
    rw
      (
        is_digit_of (d.year / 100 / 10),
        is_digit_of (d.year / 100),
        is_digit_of (d.year % 100 / 10),
        is_digit_of (d.year % 100),
        is_digit_of (d.month / 10),
        is_digit_of d.month,
        is_digit_of (d.day / 10),
        is_digit_of d.day,
        century,
        rest,
        whole,
        two_digits_range d.month m,
        two_digits_range d.day n,
        h,
      )
      refl

written_dense : (d : Date) → All (λ c. is_space c ≡ false) (written d)
unfolding digits_of
written_dense d =
    let digit = λ (n : ℕ). dense_digit (48 + n % 10) (is_digit_of n) in
    let hyphen : is_space b'-' ≡ false = unfold is_space in refl in
    (
      digit (d.year / 100 / 10),
      (
        digit (d.year / 100),
        (
          digit (d.year % 100 / 10),
          (
            digit (d.year % 100),
            (
              hyphen,
              (
                digit (d.month / 10),
                (digit d.month, (hyphen, (digit (d.day / 10), (digit d.day, tt)))),
              ),
            ),
          ),
        ),
      ),
    )

-- A date of the calendar, other than the zero date, is read back from its text.
pub parse_date-string :
    (d : Date) → is_calendar d ≡ true → is_zero d ≡ false → parse_date (string d) ≡ ok d
unfolding parse_date string
parse_date-string d h z =
    let text : string d ≡ written d = rw z refl in
    let read =
      ap (λ s. read_date (trim_space s)) text
      ∙ ap read_date (trim_space_of_dense (written d) (written_dense d))
      ∙ read_date-written d h in
    rw (read, parse_date) refl

checked_inv : (d x : Date) → checked d ≡ some x → (is_calendar d ≡ true) × (d ≡ x)
checked_inv d x h = elim (Bool-cases (is_calendar d)) [
  | inl there ↦ (there, ground arith)
  | inr away ↦ ground arith
]

-- The text of a date whose three numbers are written with these digits.
written_of_digits :
    (a b c d e f g j : ℕ)
    → is_digit a ≡ true
    → is_digit b ≡ true
    → is_digit c ≡ true
    → is_digit d ≡ true
    → is_digit e ≡ true
    → is_digit f ≡ true
    → is_digit g ≡ true
    → is_digit j ≡ true
    → written (record {
      year = two_digits a b * 100 + two_digits c d;
      month = two_digits e f;
      day = two_digits g j;
    })
      ≡ a ∷ b ∷ c ∷ d ∷ b'-' ∷ e ∷ f ∷ b'-' ∷ g ∷ j ∷ []
written_of_digits a b c d e f g j ha hb hc hd he hf hg hj =
    let small = two_digits-le c d hc hd in
    let high : (two_digits a b * 100 + two_digits c d) / 100 ≡ two_digits a b = omega arith in
    let low : (two_digits a b * 100 + two_digits c d) % 100 ≡ two_digits c d = omega arith in
    rw
      (
        high,
        low,
        digits-two_digits a b ha hb,
        digits-two_digits c d hc hd,
        digits-two_digits e f he hf,
        digits-two_digits g j hg hj,
      )
      refl

read_date_inv :
    (s : Text) (x : Date) → read_date s ≡ some x → (is_calendar x ≡ true) × (written x ≡ s)
unfolding read_date
read_date_inv [] x k = cc
read_date_inv (a ∷ []) x k = cc
read_date_inv (a ∷ b ∷ []) x k = cc
read_date_inv (a ∷ b ∷ c ∷ []) x k = cc
read_date_inv (a ∷ b ∷ c ∷ d ∷ []) x k = cc
read_date_inv (a ∷ b ∷ c ∷ d ∷ h ∷ []) x k = cc
read_date_inv (a ∷ b ∷ c ∷ d ∷ h ∷ e ∷ []) x k = cc
read_date_inv (a ∷ b ∷ c ∷ d ∷ h ∷ e ∷ f ∷ []) x k = cc
read_date_inv (a ∷ b ∷ c ∷ d ∷ h ∷ e ∷ f ∷ i ∷ []) x k = cc
read_date_inv (a ∷ b ∷ c ∷ d ∷ h ∷ e ∷ f ∷ i ∷ g ∷ []) x k = cc
read_date_inv (a ∷ b ∷ c ∷ d ∷ h ∷ e ∷ f ∷ i ∷ g ∷ j ∷ []) x k =
    elim (Bool-cases (
      is_digit a
      && is_digit b
      && is_digit c
      && is_digit d
      && h == b'-'
      && is_digit e
      && is_digit f
      && i == b'-'
      && is_digit g
      && is_digit j)) [
        | inr bad ↦ ground arith
        | inl good ↦
            let date : Date = record {
              year = two_digits a b * 100 + two_digits c d;
              month = two_digits e f;
              day = two_digits g j;
            } in
            let (there, same) = checked_inv date x (ground arith) in
            let first : h ≡ b'-' = ground arith in
            let second : i ≡ b'-' = ground arith in
            let text =
              written_of_digits a b c d e f g j (ground arith) (ground arith) (ground arith)
                (ground arith) (ground arith) (ground arith) (ground arith) (ground arith) in
            rw (← same) (there, rw (first, second) text)
      ]
read_date_inv (a ∷ b ∷ c ∷ d ∷ h ∷ e ∷ f ∷ i ∷ g ∷ j ∷ k ∷ s) x q = cc

-- What `ParseDate` reads is a day of the calendar, and `String` writes it, other than the zero date,
-- as the text that was read, blanks at the ends aside.
pub string-parse_date :
    (raw : Text) (d : Date)
    → parse_date raw ≡ ok d
    → is_zero d ≡ false
    → (is_calendar d ≡ true) × (string d ≡ trim_space raw)
unfolding parse_date string
string-parse_date raw d h z = elim (Option-cases (read_date (trim_space raw))) [
  | inl unread ↦ ground arith
  | inr (x, read) ↦
      let same : x ≡ d = ground arith in
      let (there, text) = read_date_inv (trim_space raw) d (read ∙ ap some same) in
      (there, rw z text)
]
