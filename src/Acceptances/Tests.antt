-- ===== src/Acceptances/Tests.antt =====
-- Runs of the acceptance routes, and the theorems about them at concrete inputs.
use tecora_be.Prelude.{◌≡◌, refl, ◌↔◌, true, false, [], ◌∷◌, none, some}
use tecora_be.Text.{Text, codes, text_eq, trim_space}
use tecora_be.Http.{reply}
use tecora_be.Db.{AcceptanceRow, PdfStatus, EmailStatus, ok}
use tecora_be.Db.Table.{select_first}
use tecora_be.Organizations.Model.{scan_organization}
use tecora_be.Users.Context.{current_organization}
use tecora_be.Acceptances.Model.{
  CreateInput, PdfDocument, normalize_submission, StatusResponse, status_response,
}
use tecora_be.Acceptances.Model.Normal.{IsComplete, normalize_submission_iff}
use tecora_be.Acceptances.Path.{object_key}
use tecora_be.Acceptances.Repository.{new_record, get_by_id}
use tecora_be.Acceptances.Repository.Invariant.{IsValid}
use tecora_be.Acceptances.Storage.{find_object, download, received}
use tecora_be.Acceptances.Storage.Objects.{IsHonest}
use tecora_be.Acceptances.Service as AcceptanceService
use tecora_be.Acceptances.Service.{submit, get_pdf, World}
use tecora_be.Acceptances.Service.Documents.{IsBacked, submit-IsBacked}
use tecora_be.Acceptances.Service.Delivery as Delivery
use tecora_be.Acceptances.Service.Delivery.{submit-get_pdf}
use tecora_be.Acceptances.Handler
use tecora_be.Acceptances.Handler.{Origin, Inline, inline, pdf_url}
use tecora_be.Acceptances.Handler.Tenant.{IsOwn, IsReady, get_pdf-IsOwn}
use tecora_be.Samples.{input, server, db, tables, bucket, pdf, service, world, form, inside}

normal_runs : normalize_submission (λ _. some 7) form ≡ ok input
unfolding normalize_submission trim_space
normal_runs = refl

normalize_submission_iff_example :
    ((i : CreateInput) × (normalize_submission (λ _. some 7) form ≡ ok i))
    ↔ IsComplete (λ _. some 7) form
normalize_submission_iff_example = normalize_submission_iff (λ _. some 7) form

valid : IsValid db.tables
valid = record { ids = tt; orders = tt; coherent = tt }

honest : IsHonest bucket
honest = record {
  tokens = λ n e h. cc h;
  answers = λ n status text doc h. cc h;
  requests = λ n e h. cc h;
}

backed : IsBacked service world
backed = record { honest = honest; rendered = tt; stored = tt }

submit-IsBacked_example : IsBacked service (submit service (codes "o1") form world).1
submit-IsBacked_example = submit-IsBacked service (codes "o1") form world backed

fresh : Delivery.IsNew service (codes "o1") form world input (codes "o1") pdf
unfolding normalize_submission trim_space text_eq select_first
fresh = record { normal = refl; named = refl; owner = refl; known = refl; first = refl; key = refl }

served : Delivery.IsServed service (codes "o1") form world input (codes "o1") pdf
unfolding trim_space text_eq new_record find_object object_key
served = record {
  lookup = refl;
  insert = refl;
  mark = refl;
  read = refl;
  owner_again = refl;
  key_again = refl;
  rendered = refl;
  token = (codes "t", refl);
  stored = refl;
  next_token = (codes "t", refl);
  delivered = refl;
  free = refl;
  full = refl;
}

abbrev done : AcceptanceRow
done = Delivery.finished service (codes "o1") form world input (codes "o1") pdf fresh served

submit-get_pdf_example :
    ((submit service (codes "o1") form world).0 ≡ ok done)
    × (done.pdf_status ≡ PdfStatus.generated)
    × ((get_pdf done.organization_id done.id (submit service (codes "o1") form world).1).0
        ≡ ok (received pdf))
submit-get_pdf_example =
    submit-get_pdf service (codes "o1") form world input (codes "o1") pdf fresh served

-- A record whose document is in the bucket, and its organization's context.
abbrev kept : AcceptanceRow
kept = record {
  id = codes "k1";
  organization_id = codes "o1";
  work_order_id = codes "WO-9";
  customer_name = codes "Bob";
  customer_email = codes "bob@example.com";
  service_date = codes "2026-01-02";
  service_expiration_date = codes "2027-01-02";
  service_type = codes "inspection";
  products = codes "hose" ∷ [];
  notes = [];
  approved = true;
  signature_image_base64 = codes "aGk=";
  signed_at = 7;
  signed_by_technician_id = codes "t1";
  pdf_status = PdfStatus.generated;
  email_status = EmailStatus.pending;
  pdf_storage_key = some (codes "docs/k1.pdf");
  pdf_mime_type = some (codes "application/pdf");
  pdf_error = none;
  pdf_generated_at = some 8;
  email_sent_at = none;
  created_at = 5;
  updated_at = 8;
}

abbrev filled : World
filled = record {
  db = record { server = server; step = 0; tables = record tables { acceptances = kept ∷ [] } };
  bucket = record bucket { objects = (codes "docs/k1.pdf", pdf) ∷ [] };
}

abbrev plain : Origin
plain = record { forwarded_proto = []; tls = false; host = codes "api" }

shown : StatusResponse
shown = status_response kept (pdf_url plain kept)

status_runs : (Handler.get_status plain inside (codes " k1") filled).0 ≡ reply 200 shown
unfolding Handler.get_status AcceptanceService.get_status get_by_id current_organization trim_space
    text_eq select_first shown scan_organization
status_runs = refl

document_runs :
    (Handler.get_pdf inside (codes " k1") filled).0 ≡ reply 200 (inline (codes "k1") pdf)
unfolding Handler.get_pdf get_pdf get_by_id current_organization trim_space text_eq select_first
    download find_object scan_organization
document_runs = refl

get_pdf-IsOwn_example :
    (r : AcceptanceRow) × (key : Text) × (doc : PdfDocument) × IsOwn inside filled.db
      (codes " k1")
      r
    × IsReady r key
    × ((download key filled.bucket).0 ≡ ok doc)
    × (inline (codes "k1") pdf ≡ inline (trim_space (codes " k1")) doc)
get_pdf-IsOwn_example =
    get_pdf-IsOwn inside (codes " k1") filled (inline (codes "k1") pdf) document_runs
