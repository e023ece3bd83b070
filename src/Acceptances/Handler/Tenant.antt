-- ===== src/Acceptances/Handler/Tenant.antt =====
-- Whose records the handlers of internal/acceptances/handler.go show.
use tecora_be.Prelude.{
  ℕ, ◌≡◌, refl, sym, ◌∙◌, ap, inl, inr, Option, none, some, arith, is_empty, Bool-cases,
  Option-cases,
}
use tecora_be.Text.{Text, trim_space}
use tecora_be.Text.Trim.{trim_space_idempotent}
use tecora_be.Http.{reply}
use tecora_be.Db.{AcceptanceRow, PdfStatus, Error, Result, ok, err, Db}
use tecora_be.Organizations.Model.{Organization}
use tecora_be.Gin.{Context}
use tecora_be.Users.Context.{current_organization}
use tecora_be.Acceptances.Model.{PdfDocument, StatusResponse, status_response}
use tecora_be.Acceptances.Repository.{get_by_id}
use tecora_be.Acceptances.Repository.Reading.{IsFor, get_by_id-IsFor}
use tecora_be.Acceptances.Storage.{Bucket, download}
use tecora_be.Acceptances.Service
use tecora_be.Acceptances.Service.{
  World, ready_key, after_ready, after_download, after_get, is_missing,
}
use tecora_be.Acceptances.Handler
use tecora_be.Acceptances.Handler.{Origin, Inline, inline, pdf_url, respond, write_error}

body_of_error : {A : Type 0} (e : Error) (v : A) (n : ℕ) → ¬ (write_error e ≡ reply n v)
unfolding write_error
body_of_error e v n k = ground arith

respond_inv :
    {A B : Type 0} (status : ℕ) (f : A → B) (r : Result A × World) (v : B)
    → (respond status f r).0 ≡ reply status v
    → (a : A) × (r.0 ≡ ok a) × (v ≡ f a)
respond_inv status f (ok a, w) v h = (a, refl, ground arith)
respond_inv status f (err e, w) v h = absurd (body_of_error e v status h)

-- The record of the current organization that the path names.
abbrev pub IsOwn : Context → Db → Text → AcceptanceRow → Type 0
IsOwn c db param r =
    (org : Organization) × (current_organization c ≡ some org) × IsFor db org.id param r

IsFor-trimmed :
    (db : Db) (org id : Text) (r : AcceptanceRow)
    → IsFor db (trim_space org) (trim_space (trim_space id)) r
    → IsFor db org id r
IsFor-trimmed db org id r f = record {
  organization = ap db.server.parse_uuid (sym (trim_space_idempotent org)) ∙ f.organization;
  key =
      ap db.server.parse_uuid
        (sym (ap trim_space (trim_space_idempotent id) ∙ trim_space_idempotent id))
      ∙ f.key;
  stored = f.stored;
}

-- If `GetStatus` answers 200, the body is made of a stored record of the caller's organization, the
-- one whose key the path gives, and it links to the document exactly if there is one.
pub get_status-IsOwn :
    (o : Origin) (c : Context) (param : Text) (w : World) (v : StatusResponse)
    → (Handler.get_status o c param w).0 ≡ reply 200 v
    → (r : AcceptanceRow) × IsOwn c w.db param r × (v ≡ status_response r (pdf_url o r))
unfolding Handler.get_status Service.get_status
get_status-IsOwn o c param w v h = elim (Option-cases (current_organization c)) [
  | inl absent ↦ ground arith
  | inr (org, e) ↦ elim (Bool-cases (is_empty (trim_space param))) [
    | inl blank ↦ ground arith
    | inr given ↦
        let answered : (respond 200 (λ r. status_response r (pdf_url o r))
              (Service.get_status org.id (trim_space param) w)).0
            ≡ reply 200 v =
          ground arith in
        let (r, read, same) =
          respond_inv 200 (λ r. status_response r (pdf_url o r))
            (Service.get_status org.id (trim_space param) w) v answered in
        (
          r,
          (
            org,
            e,
            IsFor-trimmed w.db org.id param r
                (get_by_id-IsFor (trim_space org.id) (trim_space (trim_space param)) w.db r read),
          ),
          same,
        )
  ]
]

-- The record's document is generated, under this key.
abbrev pub IsReady : AcceptanceRow → Text → Type 0
IsReady r key = (r.pdf_status ≡ PdfStatus.generated) × (r.pdf_storage_key ≡ some key)

ready_key_inv :
    (status : PdfStatus) (place : Option Text) (r : AcceptanceRow) (key : Text)
    → r.pdf_status ≡ status
    → r.pdf_storage_key ≡ place
    → ready_key r ≡ some key
    → IsReady r key
unfolding ready_key
ready_key_inv PdfStatus.generated (some k) r key s p h =
    elim (Bool-cases (is_empty (trim_space k))) [
      | inl blank ↦ ground arith
      | inr full ↦ (s, ground arith)
    ]
ready_key_inv PdfStatus.generated none r key s p h = ground arith
ready_key_inv PdfStatus.pending place r key s p h = ground arith
ready_key_inv PdfStatus.failed place r key s p h = ground arith

after_download_inv :
    (db : Db) (d : Result PdfDocument × Bucket) (doc : PdfDocument)
    → (after_download db d).0 ≡ ok doc
    → d.0 ≡ ok doc
after_download_inv db (ok x, b) doc h = h
after_download_inv db (err e, b) doc h = cc

after_ready_inv :
    (w : World) (ready : Option Text) (doc : PdfDocument)
    → (after_ready w ready).0 ≡ ok doc
    → (key : Text) × (ready ≡ some key) × ((download key w.bucket).0 ≡ ok doc)
after_ready_inv w none doc h = cc
after_ready_inv w (some key) doc h =
    (key, refl, after_download_inv w.db (download key w.bucket) doc h)

after_get_inv :
    (w : World) (read : Result AcceptanceRow) (doc : PdfDocument)
    → (after_get w read).0 ≡ ok doc
    → (r : AcceptanceRow) × (read ≡ ok r) × ((after_ready w (ready_key r)).0 ≡ ok doc)
after_get_inv w (ok r) doc h = (r, refl, h)
after_get_inv w (err e) doc h = cc

-- If `GetPDF` answers 200, a stored record of the caller's organization, the one whose key the path
-- gives, says that its document is generated, and the body is what the storage service returns under
-- the name in that record.
pub get_pdf-IsOwn :
    (c : Context) (param : Text) (w : World) (v : Inline)
    → (Handler.get_pdf c param w).0 ≡ reply 200 v
    → (r : AcceptanceRow) × (key : Text) × (doc : PdfDocument) × IsOwn c w.db param r
      × IsReady r key
      × ((download key w.bucket).0 ≡ ok doc)
      × (v ≡ inline (trim_space param) doc)
unfolding Handler.get_pdf Service.get_pdf
get_pdf-IsOwn c param w v h = elim (Option-cases (current_organization c)) [
  | inl absent ↦ ground arith
  | inr (org, e) ↦ elim (Bool-cases (is_empty (trim_space param))) [
    | inl blank ↦ ground arith
    | inr given ↦
        let answered : (respond 200 (inline (trim_space param))
              (Service.get_pdf org.id (trim_space param) w)).0
            ≡ reply 200 v =
          ground arith in
        let (doc, sent, same) =
          respond_inv 200 (inline (trim_space param)) (Service.get_pdf org.id (trim_space param) w)
            v answered in
        let read = get_by_id (trim_space org.id) (trim_space (trim_space param)) w.db in
        let (r, found, later) =
          after_get_inv (record { db = read.1; bucket = w.bucket }) read.0 doc sent in
        let (key, ready, delivered) =
          after_ready_inv (record { db = read.1; bucket = w.bucket }) (ready_key r) doc later in
        (
          r,
          key,
          doc,
          (
            org,
            e,
            IsFor-trimmed w.db org.id param r
                (get_by_id-IsFor (trim_space org.id) (trim_space (trim_space param)) w.db r found),
          ),
          ready_key_inv r.pdf_status r.pdf_storage_key r key refl refl ready,
          delivered,
          same,
        )
  ]
]
