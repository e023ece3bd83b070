-- ===== src/Acceptances/Model.antt =====
-- internal/acceptances/models.go. A `Record` has the fields of the table's row, so the row stands
-- for it.
pub mod Normal
use tecora_be.Prelude.{
  ℕ, Bool, true, false, not, ◌&&◌, ◌||◌, List, [], ◌∷◌, Option, none, some, is_empty, if◌then◌else◌,
}
use tecora_be.Text.{Text, trim_space}
use tecora_be.Db.{
  AcceptanceRow, PdfStatus, EmailStatus, Package, Error, invalid_input, Result, ok, err,
}

pub record Submission : Type 0 where
  pub work_order_id : Text
  pub customer_name : Text
  pub customer_email : Text
  pub service_date : Text
  pub service_expiration_date : Text
  pub service_type : Text
  pub products : List Text
  pub notes : Text
  pub approved : Bool
  pub signature_image_base64 : Text
  pub signed_at : Text
  pub signed_by_technician_id : Text

pub record CreateInput : Type 0 where
  pub organization_id : Text
  pub work_order_id : Text
  pub customer_name : Text
  pub customer_email : Text
  pub service_date : Text
  pub service_expiration_date : Text
  pub service_type : Text
  pub products : List Text
  pub notes : Text
  pub approved : Bool
  pub signature_image_base64 : Text
  pub signed_at : ℕ
  pub signed_by_technician_id : Text

pub record AcceptedResponse : Type 0 where
  pub acceptance_id : Text
  pub work_order_id : Text
  pub pdf_status : PdfStatus
  pub email_status : EmailStatus

pub record StatusResponse : Type 0 where
  pub acceptance_id : Text
  pub work_order_id : Text
  pub pdf_status : PdfStatus
  pub email_status : EmailStatus
  pub pdf_url : Option Text
  pub email_sent_at : Option ℕ
  pub updated_at : ℕ

pub record PdfDocument : Type 0 where
  pub bytes : List ℕ
  pub content_type : Text

-- The loop over the products; `none` is its early return.
unfoldable pub trim_products : List Text → Option (List Text)
unfolding trim_space
trim_products [] = some []
trim_products (product ∷ products) =
    let rest = trim_products products in
    if is_empty (trim_space product)
    then none
    else elim rest [ none ↦ none | some trimmed ↦ some (trim_space product ∷ trimmed) ]

unfoldable pub trim_submission : Submission → List Text → ℕ → CreateInput
unfolding trim_space
trim_submission s products signed_at = record {
  organization_id = [];
  work_order_id = trim_space s.work_order_id;
  customer_name = trim_space s.customer_name;
  customer_email = trim_space s.customer_email;
  service_date = trim_space s.service_date;
  service_expiration_date = trim_space s.service_expiration_date;
  service_type = trim_space s.service_type;
  products = products;
  notes = trim_space s.notes;
  approved = s.approved;
  signature_image_base64 = trim_space s.signature_image_base64;
  signed_at = signed_at;
  signed_by_technician_id = trim_space s.signed_by_technician_id;
}

-- The long test of the required fields.
unfoldable pub lacks_field : CreateInput → Bool
lacks_field out =
    is_empty out.work_order_id
    || is_empty out.customer_name
    || is_empty out.customer_email
    || is_empty out.service_date
    || is_empty out.service_expiration_date
    || is_empty out.service_type
    || is_empty out.products
    || is_empty out.signature_image_base64
    || is_empty out.signed_by_technician_id

abbrev check_input : CreateInput → Result CreateInput
check_input out = if lacks_field out then err (invalid_input Package.acceptances) else ok out

-- `parse_time` is `time.Parse(time.RFC3339, …)` with the conversion to UTC.
unfoldable pub normalize_submission : (Text → Option ℕ) → Submission → Result CreateInput
unfolding trim_products trim_submission lacks_field
normalize_submission parse_time s = elim (parse_time (trim_space s.signed_at)) [
  | none ↦ err (invalid_input Package.acceptances)
  | some signed_at ↦ elim (trim_products s.products) [
    | none ↦ err (invalid_input Package.acceptances)
    | some products ↦ check_input (trim_submission s products signed_at)
  ]
]

unfoldable pub accepted_response : AcceptanceRow → AcceptedResponse
accepted_response r = record {
  acceptance_id = r.id;
  work_order_id = r.work_order_id;
  pdf_status = r.pdf_status;
  email_status = r.email_status;
}

unfoldable pub status_response : AcceptanceRow → Option Text → StatusResponse
status_response r pdf_url = record {
  acceptance_id = r.id;
  work_order_id = r.work_order_id;
  pdf_status = r.pdf_status;
  email_status = r.email_status;
  pdf_url = pdf_url;
  email_sent_at = r.email_sent_at;
  updated_at = r.updated_at;
}
