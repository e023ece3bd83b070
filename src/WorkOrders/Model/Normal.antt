-- ===== src/WorkOrders/Model/Normal.antt =====
-- What `NormalizeCreateRequest` of internal/workorders/models.go accepts, and what it makes of it.
use tecora_be.Prelude.{
  ap, true, [], Option, none, some, ◌≡◌, refl, ◌↔◌, false, arith, is_empty, Bool-cases, inl, inr,
}
use tecora_be.Text.{Text, trim_space}
use tecora_be.Db.{Date, ok, Result-cases}
use tecora_be.WorkOrders.Model.{
  CreateRequest, CreateInput, parse_date, is_zero, normalize_optional_string, trim_request,
  lacks_field, check_input, normalize_create_request,
}

abbrev pub IsFilled : Text → Type 0
IsFilled s = is_empty (trim_space s) ≡ false

-- The date can be read and is not the zero date, and no required field is blank.
pub record IsComplete (req : CreateRequest) (d : Date) : Type 0 where
  pub job_date : parse_date req.job_date ≡ ok d
  pub dated : is_zero d ≡ false
  pub work_order_id : IsFilled req.work_order_id
  pub customer_name : IsFilled req.customer_name
  pub customer_address : IsFilled req.customer_address

-- An optional field has no value where the text is blank, else the text without blanks at its ends.
abbrev pub IsOptional : Text → Option Text → Type 0
IsOptional raw none = is_empty (trim_space raw) ≡ true
IsOptional raw (some value) = IsFilled raw × (value ≡ trim_space raw)

-- The input holds the fields of the request, each in its place, and the date.
pub record IsMade (req : CreateRequest) (d : Date) (input : CreateInput) : Type 0 where
  pub organization_id : input.organization_id ≡ []
  pub work_order_id : input.work_order_id ≡ trim_space req.work_order_id
  pub customer_name : input.customer_name ≡ trim_space req.customer_name
  pub customer_email : IsOptional req.customer_email input.customer_email
  pub customer_phone : IsOptional req.customer_phone input.customer_phone
  pub customer_address : input.customer_address ≡ trim_space req.customer_address
  pub job_date : input.job_date ≡ d
  pub status : IsOptional req.status input.status

IsOptional-made : (raw : Text) → IsOptional raw (normalize_optional_string raw)
unfolding normalize_optional_string
IsOptional-made raw = elim (Bool-cases (is_empty (trim_space raw))) [
  | inl blank ↦ rw blank blank
  | inr full ↦ rw full (full, refl)
]

optional_only :
    (raw : Text) (o : Option Text) → IsOptional raw o → o ≡ normalize_optional_string raw
unfolding normalize_optional_string
optional_only raw none blank = rw blank refl
optional_only raw (some value) (full, same) = rw full (ap some same)

trim_request-IsMade : (req : CreateRequest) (d : Date) → IsMade req d (trim_request req d)
unfolding trim_request
trim_request-IsMade req d = record {
  organization_id = refl;
  work_order_id = refl;
  customer_name = refl;
  customer_email = IsOptional-made req.customer_email;
  customer_phone = IsOptional-made req.customer_phone;
  customer_address = refl;
  job_date = refl;
  status = IsOptional-made req.status;
}

IsMade-trim_request :
    (req : CreateRequest) (d : Date) (input : CreateInput)
    → IsMade req d input
    → input ≡ trim_request req d
unfolding trim_request
IsMade-trim_request req d input m =
    let email = optional_only req.customer_email input.customer_email m.customer_email in
    let phone = optional_only req.customer_phone input.customer_phone m.customer_phone in
    let status = optional_only req.status input.status m.status in
    let org = m.organization_id in
    let order = m.work_order_id in
    let name = m.customer_name in
    let address = m.customer_address in let date = m.job_date in ground arith

check_input_inv :
    (req : CreateRequest) (d : Date) (input : CreateInput)
    → parse_date req.job_date ≡ ok d
    → check_input (trim_request req d) ≡ ok input
    → (input ≡ trim_request req d) × IsComplete req d
unfolding trim_request
check_input_inv req d input read h = elim (Bool-cases (lacks_field (trim_request req d))) [
  | inl lacks ↦ ground arith
  | inr full ↦ (
    ground arith,
    record {
      job_date = read;
      dated = ground arith;
      work_order_id = ground arith;
      customer_name = ground arith;
      customer_address = ground arith;
    },
  )
]

-- `NormalizeCreateRequest` accepts a request exactly if its date can be read and is not the zero date
-- and its work order, customer and address are not blank, and then each field of the input is the
-- trimmed field of the request, with no value for an optional field that is blank, and no organization
-- yet.
pub normalize_create_request_iff :
    (req : CreateRequest) (input : CreateInput)
    → (normalize_create_request req ≡ ok input)
      ↔ ((d : Date) × IsComplete req d × IsMade req d input)
unfolding normalize_create_request
normalize_create_request_iff req input = (
  λ h. elim (Result-cases (parse_date req.job_date)) [
    | inl (d, read) ↦
        let (same, complete) = check_input_inv req d input read (ground arith) in
        (d, complete, rw same (trim_request-IsMade req d))
    | inr (e, failed) ↦ ground arith
  ],
  λ (d, c, made).
      let same = IsMade-trim_request req d input made in
      let full : lacks_field (trim_request req d) ≡ false =
        unfold trim_request in
        rw (c.work_order_id, c.customer_name, c.customer_address, c.dated) refl in
      rw (c.job_date, full, same, normalize_create_request) refl,
)
