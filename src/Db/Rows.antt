-- ===== src/Db/Rows.antt =====
-- The rows of the tables in db/migrations/*.up.sql. Instants are numbers.
use tecora_be.Prelude.{ℕ, Bool, List, Option}
use tecora_be.Text.{Text}

-- 000002_organizations.up.sql
pub record OrganizationRow : Type 0 where
  pub id : Text
  pub slug : Text
  pub name : Text
  pub created_at : ℕ
  pub updated_at : ℕ
  pub deleted_at : Option ℕ

-- 000003_users.up.sql
pub record UserRow : Type 0 where
  pub id : Text
  pub clerk_user_id : Text
  pub email : Option Text
  pub first_name : Option Text
  pub last_name : Option Text
  pub organization_id : Text
  pub created_at : ℕ
  pub updated_at : ℕ
  pub deleted_at : Option ℕ

-- 000004_customers.up.sql
pub record CustomerRow : Type 0 where
  pub id : Text
  pub organization_id : Text
  pub name : Text
  pub email : Option Text
  pub phone : Option Text
  pub address : Option Text
  pub notes : Option Text
  pub created_at : ℕ
  pub updated_at : ℕ
  pub deleted_at : Option ℕ

-- The values that acceptances_pdf_status_check admits.
pub data PdfStatus : Type 0 where
  pending generated failed : PdfStatus

-- The values that acceptances_email_status_check admits.
pub data EmailStatus : Type 0 where
  pending sent failed : EmailStatus

-- 000005_acceptances.up.sql
pub record AcceptanceRow : Type 0 where
  pub id : Text
  pub organization_id : Text
  pub work_order_id : Text
  pub customer_name : Text
  pub customer_email : Text
  pub service_date : Text
  pub service_expiration_date : Text
  pub service_type : Text
  pub products : List Text
  pub notes : Text
  pub approved : Bool
  pub signature_image_base64 : Text
  pub signed_at : ℕ
  pub signed_by_technician_id : Text
  pub pdf_status : PdfStatus
  pub email_status : EmailStatus
  pub pdf_storage_key : Option Text
  pub pdf_mime_type : Option Text
  pub pdf_error : Option Text
  pub pdf_generated_at : Option ℕ
  pub email_sent_at : Option ℕ
  pub created_at : ℕ
  pub updated_at : ℕ

-- A day of the calendar: a DATE of the database, and a `time.Time` at midnight in UTC.
pub record Date : Type 0 where
  pub year : ℕ
  pub month : ℕ
  pub day : ℕ

-- 000006_work_orders.up.sql
pub record WorkOrderRow : Type 0 where
  pub id : Text
  pub organization_id : Text
  pub work_order_id : Text
  pub customer_name : Text
  pub customer_email : Option Text
  pub customer_phone : Option Text
  pub customer_address : Text
  pub job_date : Date
  pub status : Option Text
  pub created_at : ℕ
  pub updated_at : ℕ
  pub deleted_at : Option ℕ
