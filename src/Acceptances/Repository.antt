-- ===== src/Acceptances/Repository.antt =====
-- internal/acceptances/repository.go: each method and the SQL statement that it sends. The scan of
-- a row copies it.
pub mod Invariant
pub mod Reading
pub mod Effects
pub mod Frame
pub mod Tenant
pub mod Answers
use tecora_be.Prelude.{
  ℕ, Bool, true, false, not, ◌&&◌, ◌||◌, List, [], ◌∷◌, ◌++◌, map, Option, none, some, any, length,
  take, leb, ◌*◌, ◌+◌, ◌/◌, ◌%◌, ltb, if◌then◌else◌,
}
use tecora_be.Text.{Text, codes, text_eq, trim_space}
use tecora_be.Db.{
  AcceptanceRow, PdfStatus, EmailStatus, Package, no_rows, pg_error, Error, not_found, conflict,
  database, Result, ok, err, Server, Tables, Db, Action, Statement, query, returning, finish,
}
use tecora_be.Text.Utf8.{utf8}
use tecora_be.Db.Table.{select_first, update_where}
use tecora_be.Db.Uuid.{with_uuid}
use tecora_be.Acceptances.Model.{CreateInput}

unfoldable pub translate_row_error : Error → Error
translate_row_error (database no_rows) = not_found Package.acceptances
translate_row_error e = e

-- The code is compared as it is, and `pgx.ErrNoRows` is passed on.
unfoldable pub translate_write_error : Error → Error
unfolding text_eq
translate_write_error (database (pg_error code)) =
    if text_eq code (codes "23505") then conflict Package.acceptances else database (pg_error code)
translate_write_error e = e

abbrev pub is_record : Text → Text → AcceptanceRow → Bool
is_record org id r = text_eq r.organization_id org && text_eq r.id id

abbrev pub is_for_work_order : Text → Text → AcceptanceRow → Bool
is_for_work_order org work_order_id r =
    text_eq r.organization_id org && text_eq r.work_order_id work_order_id

abbrev pub select_record : (AcceptanceRow → Bool) → Statement AcceptanceRow
select_record p sv n t = returning (select_first p t.acceptances) (λ r. r) t t

unfoldable pub select_by_id : Text → Text → Statement AcceptanceRow
unfolding with_uuid
select_by_id org id sv n t =
    with_uuid (sv.parse_uuid org)
      (λ o. with_uuid (sv.parse_uuid id) (λ i. select_record (is_record o i))) sv n t

unfoldable pub get_by_id : Text → Text → Action AcceptanceRow
unfolding select_by_id trim_space translate_row_error
get_by_id org id db =
    finish translate_row_error (λ r. r) (query (select_by_id (trim_space org) (trim_space id)) db)

unfoldable pub select_by_work_order : Text → Text → Statement AcceptanceRow
unfolding with_uuid
select_by_work_order org work_order_id sv n t =
    with_uuid (sv.parse_uuid org) (λ o. select_record (is_for_work_order o work_order_id)) sv n t

unfoldable pub get_by_work_order_id : Text → Text → Action AcceptanceRow
unfolding select_by_work_order trim_space translate_row_error
get_by_work_order_id org work_order_id db =
    finish translate_row_error (λ r. r)
      (query (select_by_work_order (trim_space org) (trim_space work_order_id)) db)

-- The row that `Create` inserts; columns that it leaves out have the defaults of
-- 000005_acceptances.up.sql. The products are not trimmed again.
unfoldable pub new_record : CreateInput → Text → Server → ℕ → AcceptanceRow
unfolding trim_space
new_record input org sv n = record {
  id = sv.gen_random_uuid n;
  organization_id = org;
  work_order_id = trim_space input.work_order_id;
  customer_name = trim_space input.customer_name;
  customer_email = trim_space input.customer_email;
  service_date = trim_space input.service_date;
  service_expiration_date = trim_space input.service_expiration_date;
  service_type = trim_space input.service_type;
  products = input.products;
  notes = trim_space input.notes;
  approved = input.approved;
  signature_image_base64 = trim_space input.signature_image_base64;
  signed_at = input.signed_at;
  signed_by_technician_id = trim_space input.signed_by_technician_id;
  pdf_status = PdfStatus.pending;
  email_status = EmailStatus.pending;
  pdf_storage_key = none;
  pdf_mime_type = none;
  pdf_error = none;
  pdf_generated_at = none;
  email_sent_at = none;
  created_at = sv.now n;
  updated_at = sv.now n;
}

-- 23505: the key, or the work order of the organization, has a row; 23503: no such organization.
unfoldable pub insert_record : CreateInput → Text → Statement AcceptanceRow
unfolding new_record
insert_record input org sv n t =
    let row = new_record input org sv n in
    if any (λ r. text_eq r.id row.id) t.acceptances
      || any (is_for_work_order row.organization_id row.work_order_id) t.acceptances
    then (err (database (pg_error (codes "23505"))), t)
    else if any (λ o. text_eq o.id org) t.organizations
    then (ok row, record t { acceptances = t.acceptances ++ row ∷ [] })
    else (err (database (pg_error (codes "23503"))), t)

unfoldable pub insert : CreateInput → Statement AcceptanceRow
unfolding with_uuid insert_record trim_space
insert input sv n t =
    with_uuid (sv.parse_uuid (trim_space input.organization_id)) (insert_record input) sv n t

unfoldable pub create : CreateInput → Action AcceptanceRow
unfolding insert translate_write_error
create input db = finish translate_write_error (λ r. r) (query (insert input) db)

-- UPDATE … WHERE organization_id = $1 AND id = $2
unfoldable pub change_record :
    Text → Text → (ℕ → AcceptanceRow → AcceptanceRow) → Statement AcceptanceRow
unfolding with_uuid
change_record org id change sv n t =
    with_uuid (sv.parse_uuid org)
      (λ o. with_uuid (sv.parse_uuid id) (λ i sv' n' t'.
        let rows = update_where (is_record o i) (change (sv'.now n')) t'.acceptances in
        returning (select_first (is_record o i) t'.acceptances) (change (sv'.now n')) t'
          (record t' { acceptances = rows })))
      sv n t

unfoldable pub set_generated : Text → Text → ℕ → AcceptanceRow → AcceptanceRow
set_generated key mime now r = record r {
  pdf_status = PdfStatus.generated;
  pdf_storage_key = some key;
  pdf_mime_type = some mime;
  pdf_error = none;
  pdf_generated_at = some now;
  updated_at = now;
}

unfoldable pub mark_pdf_generated : Text → Text → Text → Text → Action AcceptanceRow
unfolding change_record set_generated trim_space translate_row_error
mark_pdf_generated org id key mime db =
    finish translate_row_error (λ r. r)
      (query
        (change_record (trim_space org) (trim_space id)
          (set_generated (trim_space key) (trim_space mime)))
        db)

-- `truncateError`, as bytes: the cut is made between bytes, so it can fall inside a code point.
unfoldable pub truncate_error : Text → List ℕ
unfolding utf8 trim_space
truncate_error raw =
    let bytes = utf8 (trim_space raw) in if leb (length bytes) 2048 then bytes else take 2048 bytes

unfoldable pub set_failed : Text → ℕ → AcceptanceRow → AcceptanceRow
set_failed message now r = record r {
  pdf_status = PdfStatus.failed;
  pdf_error = some message;
  updated_at = now;
}

-- 22021: the server refuses a text that is no UTF-8.
abbrev pub fail_stored : Text → Text → Option Text → Statement AcceptanceRow
fail_stored org id none sv n t = (err (database (pg_error (codes "22021"))), t)
fail_stored org id (some stored) sv n t = change_record org id (set_failed stored) sv n t

unfoldable pub fail_record : Text → Text → Text → Statement AcceptanceRow
unfolding change_record set_failed truncate_error
fail_record org id message sv n t = fail_stored org id (sv.decode (truncate_error message)) sv n t

unfoldable pub mark_pdf_failed : Text → Text → Text → Action AcceptanceRow
unfolding fail_record trim_space translate_row_error
mark_pdf_failed org id message db =
    finish translate_row_error (λ r. r)
      (query (fail_record (trim_space org) (trim_space id) message) db)
