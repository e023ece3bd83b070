-- ===== src/Acceptances/Service.antt =====
-- internal/acceptances/service.go. `NewService` normalises the prefix; the renderer is the interface
-- `PDFRenderer`, and `message` the texts that `%v` prints for errors.
pub mod Submit
pub mod Documents
pub mod Delivery
pub mod Printed
pub mod Tenant
use tecora_be.Prelude.{
  ℕ, Bool, true, false, not, ◌&&◌, ◌||◌, List, [], ◌∷◌, ◌++◌, Option, none, some, is_empty,
  if◌then◌else◌,
}
use tecora_be.Text.{Text, codes, trim_space}
use tecora_be.Db.{
  AcceptanceRow, PdfStatus, Package, Error, not_found, conflict, invalid_input, pdf_not_ready,
  object_not_found, object_exists, Result, ok, err, Db,
}
use tecora_be.Acceptances.Model.{Submission, CreateInput, PdfDocument, normalize_submission}
use tecora_be.Acceptances.Path.{normalize_document_prefix, object_key}
use tecora_be.Acceptances.Repository.{
  get_by_id, get_by_work_order_id, create, mark_pdf_generated, mark_pdf_failed,
}
use tecora_be.Acceptances.Storage.{Bucket, upload, download}

-- What the service is made of, and what it takes from outside the repository.
pub record Service : Type 0 where
  pub parse_time : Text → Option ℕ
  pub render : AcceptanceRow → Result PdfDocument
  pub message : Error → Text
  pub document_prefix : Text

unfoldable pub new_service :
    (Text → Option ℕ) → (AcceptanceRow → Result PdfDocument) → (Error → Text) → Text → Service
unfolding normalize_document_prefix
new_service parse_time render message prefix = record {
  parse_time = parse_time;
  render = render;
  message = message;
  document_prefix = normalize_document_prefix prefix;
}

pub record World : Type 0 where
  pub db : Db
  pub bucket : Bucket

abbrev pub is_not_found : Error → Bool
is_not_found (not_found Package.acceptances) = true
is_not_found _ = false

abbrev pub is_conflict : Error → Bool
is_conflict (conflict Package.acceptances) = true
is_conflict _ = false

abbrev pub is_object_exists : Error → Bool
is_object_exists object_exists = true
is_object_exists _ = false

-- A call of the store, beside a bucket that it leaves alone.
abbrev pub beside : {A : Type 0} → Bucket → Result A × Db → Result A × World
beside bucket (r, db) = (r, record { db = db; bucket = bucket })

module _ (s : Service) where
  abbrev pub key_of : AcceptanceRow → Text
  key_of r = object_key s.document_prefix r.organization_id r.id

  abbrev pub generated : AcceptanceRow → PdfDocument → Db → Result AcceptanceRow × Db
  generated r pdf db = mark_pdf_generated r.organization_id r.id (key_of r) pdf.content_type db

  -- `Submit` from the answer of `Upload` on
  unfoldable pub after_upload :
      AcceptanceRow → PdfDocument → Db → Result (Unit {0}) × Bucket → Result AcceptanceRow × World
  after_upload r pdf db (ok _, bucket) = beside bucket (generated r pdf db)
  after_upload r pdf db (err e, bucket) =
      if is_object_exists e
      then beside bucket (generated r pdf db)
      else beside bucket
          (mark_pdf_failed r.organization_id r.id (codes "upload pdf: " ++ s.message e) db)

  -- … from the answer of `Render` on
  unfoldable pub after_render :
      AcceptanceRow → World → Result PdfDocument → Result AcceptanceRow × World
  unfolding after_upload
  after_render r w (err e) =
      beside w.bucket
        (mark_pdf_failed r.organization_id r.id (codes "render pdf: " ++ s.message e) w.db)
  after_render r w (ok pdf) = after_upload r pdf w.db (upload (key_of r) pdf w.bucket)

  -- … from the answer of `Create` on
  unfoldable pub after_create :
      CreateInput → World → Result AcceptanceRow → Result AcceptanceRow × World
  unfolding after_render
  after_create input w (ok r) = after_render r w (s.render r)
  after_create input w (err e) =
      if is_conflict e
      then beside w.bucket (get_by_work_order_id input.organization_id input.work_order_id w.db)
      else (err e, w)

  -- … from the first lookup on
  unfoldable pub after_lookup :
      CreateInput → World → Result AcceptanceRow → Result AcceptanceRow × World
  unfolding after_create
  after_lookup input w (ok existing) = (ok existing, w)
  after_lookup input w (err e) =
      if is_not_found e
      then (let (r, w') = beside w.bucket (create input w.db) in after_create input w' r)
      else (err e, w)

  unfoldable pub submit_input : CreateInput → World → Result AcceptanceRow × World
  unfolding after_lookup
  submit_input input w =
      let (r, w') =
        beside w.bucket (get_by_work_order_id input.organization_id input.work_order_id w.db) in
      after_lookup input w' r

  abbrev submit_normal : Text → World → Result CreateInput → Result AcceptanceRow × World
  submit_normal org w (err e) = (err e, w)
  submit_normal org w (ok input) =
      if is_empty org
      then (err (invalid_input Package.acceptances), w)
      else submit_input (record input { organization_id = org }) w

  unfoldable pub submit : Text → Submission → World → Result AcceptanceRow × World
  unfolding submit_input
  submit organization_id submission w =
      submit_normal (trim_space organization_id) w (normalize_submission s.parse_time submission)

unfoldable pub get_status : Text → Text → World → Result AcceptanceRow × World
get_status org id w = beside w.bucket (get_by_id (trim_space org) (trim_space id) w.db)

-- The key of a document that is ready, by the guard of `GetPDF`.
unfoldable pub ready_key : AcceptanceRow → Option Text
unfolding trim_space
ready_key r = elim r.pdf_status [
  | PdfStatus.generated ↦ elim r.pdf_storage_key [
    | none ↦ none
    | some key ↦ if is_empty (trim_space key) then none else some key
  ]
  | _ ↦ none
]

abbrev pub is_missing : Error → Bool
is_missing object_not_found = true
is_missing _ = false

abbrev pub after_download : Db → Result PdfDocument × Bucket → Result PdfDocument × World
after_download db (ok doc, bucket) = (ok doc, record { db = db; bucket = bucket })
after_download db (err e, bucket) =
    (err (if is_missing e then pdf_not_ready else e), record { db = db; bucket = bucket })

abbrev pub after_ready : World → Option Text → Result PdfDocument × World
after_ready w none = (err pdf_not_ready, w)
after_ready w (some key) = after_download w.db (download key w.bucket)

abbrev pub after_get : World → Result AcceptanceRow → Result PdfDocument × World
after_get w (err e) = (err e, w)
after_get w (ok r) = after_ready w (ready_key r)

unfoldable pub get_pdf : Text → Text → World → Result PdfDocument × World
unfolding ready_key
get_pdf org id w =
    let (r, w') = beside w.bucket (get_by_id (trim_space org) (trim_space id) w.db) in
    after_get w' r
