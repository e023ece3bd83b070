-- ===== src/Acceptances/Service/Submit.antt =====
-- What `Submit` of internal/acceptances/service.go keeps, step by step: a rule for invariants of the
-- database and the bucket, and the invariant of the acceptances table.
use tecora_be.Prelude.{◌++◌, ◌≡◌, refl, ◌∙◌, ap, inl, inr, true, is_empty, Bool-cases}
use tecora_be.Text.{Text, codes, trim_space}
use tecora_be.Db.{AcceptanceRow, Error, Result, ok, err, Db, object_exists}
use tecora_be.Acceptances.Model.{Submission, CreateInput, PdfDocument, normalize_submission}
use tecora_be.Acceptances.Repository.{
  get_by_work_order_id, create, mark_pdf_generated, mark_pdf_failed,
}
use tecora_be.Acceptances.Repository.Reading.{
  get_by_work_order_id-tables, get_by_work_order_id-server,
}
use tecora_be.Acceptances.Repository.Invariant.{
  IsValid, create-IsValid, mark_pdf_generated-IsValid, mark_pdf_failed-IsValid,
}
use tecora_be.Acceptances.Storage.{Bucket, upload}
use tecora_be.Acceptances.Storage.Objects.{IsInPlace}
use tecora_be.Acceptances.Service.{
  Service, World, is_conflict, is_not_found, is_object_exists, key_of, after_upload, after_render,
  after_create, after_lookup, submit_input, submit_normal, submit,
}

abbrev pub world : Db → Bucket → World
world db bucket = record { db = db; bucket = bucket }

-- What each of the effects of `Submit` keeps, where `Own` holds of the organizations that it names.
pub record IsInductive {κ} (s : Service) (Own : Text → Type 0) (P : World → Type κ) : Type κ where
  pub reads :
      (w : World) (db : Db)
      → db.server ≡ w.db.server
      → db.tables ≡ w.db.tables
      → P w
      → P (world db w.bucket)
  pub creates :
      (w : World) (input : CreateInput)
      → Own input.organization_id
      → P w
      → P (world (create input w.db).1 w.bucket)
  pub created :
      (w : World) (input : CreateInput) (r : AcceptanceRow)
      → Own input.organization_id
      → P w
      → (create input w.db).0 ≡ ok r
      → Own r.organization_id
  pub fails :
      (w : World) (org id message : Text)
      → Own org
      → P w
      → P (world (mark_pdf_failed org id message w.db).1 w.bucket)
  pub uploads :
      (w : World) (r : AcceptanceRow) (pdf : PdfDocument)
      → s.render r ≡ ok pdf
      → P w
      → P (world w.db (upload (key_of s r) pdf w.bucket).1)
  pub generates :
      (w : World) (r : AcceptanceRow) (pdf : PdfDocument)
      → s.render r ≡ ok pdf
      → Own r.organization_id
      → P (world w.db (upload (key_of s r) pdf w.bucket).1)
      → IsInPlace (upload (key_of s r) pdf w.bucket).0
      → P (
          world
            (mark_pdf_generated r.organization_id r.id (key_of s r) pdf.content_type w.db).1
            (upload (key_of s r) pdf w.bucket).1)

eq-exists_of_is_object_exists : (e : Error) → is_object_exists e ≡ true → e ≡ object_exists
eq-exists_of_is_object_exists object_exists h = refl
eq-exists_of_is_object_exists _ h = cc

module _ {κ} (s : Service) (Own : Text → Type 0) (P : World → Type κ)
    (rule : IsInductive s Own P) where
  upload_keeps :
      (r : AcceptanceRow) (pdf : PdfDocument) (w : World)
      → s.render r ≡ ok pdf
      → Own r.organization_id
      → P w
      → P (after_upload s r pdf w.db (upload (key_of s r) pdf w.bucket)).1
  unfolding after_upload
  upload_keeps r pdf w drawn own h =
      let key = key_of s r in
      let later = rule.uploads w r pdf drawn h in go (upload key pdf w.bucket).0 refl later
    where
      go :
          (a : Result (Unit {0}))
          → (upload (key_of s r) pdf w.bucket).0 ≡ a
          → P (world w.db (upload (key_of s r) pdf w.bucket).1)
          → P (after_upload s r pdf w.db (a, (upload (key_of s r) pdf w.bucket).1)).1
      go (ok done) e k = rule.generates w r pdf drawn own k (inl e)
      go (err x) e k = elim (Bool-cases (is_object_exists x)) [
        | inl there ↦ rw there (
            rule.generates w r pdf drawn own k
              (inr (e ∙ ap err (eq-exists_of_is_object_exists x there))))
        | inr other ↦ rw other (
            rule.fails (world w.db (upload (key_of s r) pdf w.bucket).1) r.organization_id r.id
              (codes "upload pdf: " ++ s.message x) own k)
      ]

  render_keeps :
      (r : AcceptanceRow) (w : World) (d : Result PdfDocument)
      → s.render r ≡ d
      → Own r.organization_id
      → P w
      → P (after_render s r w d).1
  unfolding after_render
  render_keeps r w (ok pdf) drawn own h = upload_keeps r pdf w drawn own h
  render_keeps r w (err e) drawn own h =
      rule.fails w r.organization_id r.id (codes "render pdf: " ++ s.message e) own h

  create_keeps :
      (input : CreateInput) (w : World) (a : Result AcceptanceRow)
      → ((r : AcceptanceRow) → a ≡ ok r → Own r.organization_id)
      → P w
      → P (after_create s input w a).1
  unfolding after_create
  create_keeps input w (ok r) own h = render_keeps r w (s.render r) refl (own r refl) h
  create_keeps input w (err e) own h = elim (Bool-cases (is_conflict e)) [
    | inl taken ↦ rw taken (
        rule.reads w (get_by_work_order_id input.organization_id input.work_order_id w.db).1
          (get_by_work_order_id-server input.organization_id input.work_order_id w.db)
          (get_by_work_order_id-tables input.organization_id input.work_order_id w.db) h)
    | inr other ↦ rw other h
  ]

  lookup_keeps :
      (input : CreateInput) (w : World) (a : Result AcceptanceRow)
      → Own input.organization_id
      → P w
      → P (after_lookup s input w a).1
  unfolding after_lookup
  lookup_keeps input w (ok existing) own h = h
  lookup_keeps input w (err e) own h = elim (Bool-cases (is_not_found e)) [
    | inl new ↦ rw new (
        create_keeps input (world (create input w.db).1 w.bucket) (create input w.db).0
          (λ r. rule.created w input r own h) (rule.creates w input own h))
    | inr other ↦ rw other h
  ]

  normal_keeps :
      (org : Text) (w : World) (i : Result CreateInput)
      → Own org
      → P w
      → P (submit_normal s org w i).1
  unfolding submit_input
  normal_keeps org w (err e) own h = h
  normal_keeps org w (ok input) own h = elim (Bool-cases (is_empty org)) [
    | inl blank ↦ rw blank h
    | inr named ↦ rw named (
        lookup_keeps (record input { organization_id = org })
          (world (get_by_work_order_id org input.work_order_id w.db).1 w.bucket)
          (get_by_work_order_id org input.work_order_id w.db).0 own
          (rule.reads w (get_by_work_order_id org input.work_order_id w.db).1
            (get_by_work_order_id-server org input.work_order_id w.db)
            (get_by_work_order_id-tables org input.work_order_id w.db) h))
  ]

  -- What its effects keep, `Submit` keeps, on every path.
  pub submit_keeps :
      (org : Text) (x : Submission) (w : World)
      → Own (trim_space org)
      → P w
      → P (submit s org x w).1
  unfolding submit
  submit_keeps org x w own h =
      normal_keeps (trim_space org) w (normalize_submission s.parse_time x) own h

-- A rule that asks nothing of the organizations.
abbrev pub Any : Text → Type 0
Any org = Unit

-- The acceptances of the database are valid.
abbrev HoldsHere : World → Type 0
HoldsHere w = IsValid w.db.tables

valid_rule : (s : Service) → IsInductive s Any HoldsHere
valid_rule s = record {
  reads = λ w db _ e h. rw e h;
  creates = λ w input _ h. create-IsValid w.db h input;
  created = λ w input r own h e. tt;
  fails = λ w org id message _ h. mark_pdf_failed-IsValid w.db h org id message;
  uploads = λ w r pdf _ h. h;
  generates = λ w r pdf _ _ h _.
      mark_pdf_generated-IsValid w.db h r.organization_id r.id (key_of s r) pdf.content_type;
}

-- Whatever becomes of the statements, the rendering and the upload, `Submit` leaves one acceptance
-- for a work order of an organization, unique keys, and in each row columns that fit its status.
pub submit-IsValid :
    (s : Service) (org : Text) (x : Submission) (w : World)
    → IsValid w.db.tables
    → IsValid (submit s org x w).1.db.tables
submit-IsValid s org x w h = submit_keeps s Any HoldsHere (valid_rule s) org x w tt h
