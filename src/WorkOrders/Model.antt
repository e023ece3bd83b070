-- ===== src/WorkOrders/Model.antt =====
-- internal/workorders/models.go. A `WorkOrder` has the fields of the table's row, so the row stands
-- for it.
pub mod Dates
pub mod Normal
use tecora_be.Prelude.{
  ℕ, ◌+◌, ◌-◌, ◌*◌, ◌/◌, ◌%◌, Bool, true, false, not, ◌&&◌, ◌||◌, List, [], ◌∷◌, ◌++◌, Option, none,
  some, is_empty, leb, ◌==◌, if◌then◌else◌,
}
use tecora_be.Text.{Text, trim_space}
use tecora_be.Db.{Date, Package, Error, invalid_input, Result, ok, err}

unfoldable pub is_digit : ℕ → Bool
is_digit c = leb b'0' c && leb c b'9'

unfoldable pub is_leap : ℕ → Bool
is_leap year = (year % 4 == 0) && (not (year % 100 == 0) || year % 400 == 0)

-- `daysIn` of package time
unfoldable pub days_in : ℕ → ℕ → ℕ
unfolding is_leap
days_in year month =
    if month == 2
    then (if is_leap year then 29 else 28)
    else if month == 4 || month == 6 || month == 9 || month == 11
    then 30
    else 31

-- The dates of the calendar with a year of four digits.
unfoldable pub is_calendar : Date → Bool
unfolding days_in
is_calendar d =
    leb d.year 9999
    && leb 1 d.month
    && leb d.month 12
    && leb 1 d.day
    && leb d.day (days_in d.year d.month)

-- The number that decimal digits write.
abbrev pub two_digits : ℕ → ℕ → ℕ
two_digits a b = (a - 48) * 10 + (b - 48)

abbrev pub checked : Date → Option Date
checked d = if is_calendar d then some d else none

-- `time.Parse("2006-01-02", raw)`: four digits, two digits and two digits with hyphens between, of a
-- day that the calendar has.
unfoldable pub read_date : Text → Option Date
unfolding is_digit is_calendar
read_date (a ∷ b ∷ c ∷ d ∷ h ∷ e ∷ f ∷ i ∷ g ∷ j ∷ []) =
    if is_digit a
      && is_digit b
      && is_digit c
      && is_digit d
      && h == b'-'
      && is_digit e
      && is_digit f
      && i == b'-'
      && is_digit g
      && is_digit j
    then checked (record {
      year = two_digits a b * 100 + two_digits c d;
      month = two_digits e f;
      day = two_digits g j;
    })
    else none
read_date _ = none

unfoldable pub parse_date : Text → Result Date
unfolding read_date trim_space
parse_date raw = elim (read_date (trim_space raw)) [
  | none ↦ err (invalid_input Package.workorders)
  | some d ↦ ok d
]

-- `Time.IsZero`
unfoldable pub is_zero : Date → Bool
is_zero d = d.year == 1 && d.month == 1 && d.day == 1

-- `Format("2006-01-02")`
unfoldable pub digits_of : ℕ → Text
digits_of n = (48 + (n / 10) % 10) ∷ (48 + n % 10) ∷ []

unfoldable pub string : Date → Text
unfolding is_zero digits_of
string d =
    if is_zero d
    then []
    else digits_of (d.year / 100)
      ++ (digits_of (d.year % 100) ++ (b'-' ∷ (digits_of d.month ++ (b'-' ∷ digits_of d.day))))

pub record CreateRequest : Type 0 where
  pub work_order_id : Text
  pub customer_name : Text
  pub customer_email : Text
  pub customer_phone : Text
  pub customer_address : Text
  pub job_date : Text
  pub status : Text

pub record CreateInput : Type 0 where
  pub organization_id : Text
  pub work_order_id : Text
  pub customer_name : Text
  pub customer_email : Option Text
  pub customer_phone : Option Text
  pub customer_address : Text
  pub job_date : Date
  pub status : Option Text

unfoldable pub normalize_optional_string : Text → Option Text
unfolding trim_space
normalize_optional_string raw = if is_empty (trim_space raw) then none else some (trim_space raw)

-- The input that the fields make; `OrganizationID` has its zero value.
unfoldable pub trim_request : CreateRequest → Date → CreateInput
unfolding normalize_optional_string trim_space
trim_request req job_date = record {
  organization_id = [];
  work_order_id = trim_space req.work_order_id;
  customer_name = trim_space req.customer_name;
  customer_email = normalize_optional_string req.customer_email;
  customer_phone = normalize_optional_string req.customer_phone;
  customer_address = trim_space req.customer_address;
  job_date = job_date;
  status = normalize_optional_string req.status;
}

abbrev pub lacks_field : CreateInput → Bool
lacks_field input =
    is_empty input.work_order_id
    || is_empty input.customer_name
    || is_empty input.customer_address
    || is_zero input.job_date

abbrev pub check_input : CreateInput → Result CreateInput
check_input input = if lacks_field input then err (invalid_input Package.workorders) else ok input

unfoldable pub normalize_create_request : CreateRequest → Result CreateInput
unfolding trim_request parse_date is_zero
normalize_create_request req = elim (parse_date req.job_date) [
  | err e ↦ err e
  | ok job_date ↦ check_input (trim_request req job_date)
]
