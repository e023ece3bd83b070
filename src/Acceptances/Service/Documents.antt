-- ===== src/Acceptances/Service/Documents.antt =====
-- The rows of the database beside the documents of the bucket: which object a row
-- names that says that its document is generated.
use tecora_be.Prelude.{
  ℕ, ◌≡◌, Bool, List, [], ◌∷◌, refl, some, inl, inr, All, All-append, Option-cases,
}
use tecora_be.Text.{Text, trim_space}
use tecora_be.Text.Trim.{trim_space_idempotent}
use tecora_be.Db.{AcceptanceRow, PdfStatus, Db, ok}
use tecora_be.Db.Table.{update_where, update_where-All}
use tecora_be.Acceptances.Model.{Submission, CreateInput, PdfDocument}
use tecora_be.Acceptances.Repository.{new_record, set_generated, set_failed}
use tecora_be.Acceptances.Repository.Effects.{
  create_effect, mark_pdf_generated_effect, mark_pdf_failed_effect,
}
use tecora_be.Acceptances.Storage.{Bucket, find_object, upload}
use tecora_be.Acceptances.Storage.Objects.{
  IsHonest, Holds, upload-Holds, upload-Holds_new, upload-IsHonest_iff, upload-All, find_object-All,
}
use tecora_be.Acceptances.Service.{Service, World, key_of, submit}
use tecora_be.Acceptances.Service.Submit.{world, IsInductive, Any, submit_keeps}

-- The document is a rendering by the service of a record whose object has this name.
abbrev pub IsRendering : Service → Text → PdfDocument → Type 0
IsRendering s name doc =
    (r : AcceptanceRow) × (s.render r ≡ ok doc) × (trim_space (key_of s r) ≡ name)

-- If the row says that its document is generated, it has a key, and under this there is an object, a
-- rendering of a record of that name.
abbrev pub IsStored : Service → Bucket → AcceptanceRow → Type 0
IsStored s b r =
    r.pdf_status ≡ PdfStatus.generated
    → (key : Text) × (doc : PdfDocument) × (r.pdf_storage_key ≡ some key)
      × (find_object (trim_space key) b.objects ≡ some doc)
      × IsRendering s (trim_space key) doc

-- The storage service is honest, its objects are renderings, and every row that says that its document
-- is generated has it in the bucket.
pub record IsBacked (s : Service) (w : World) : Type 0 where
  pub honest : IsHonest w.bucket
  pub rendered : All (λ (o : Text × PdfDocument). IsRendering s o.0 o.1) w.bucket.objects
  pub stored : All (IsStored s w.bucket) w.db.tables.acceptances

-- The same without the object itself.
abbrev IsNamed : Bucket → AcceptanceRow → Type 0
IsNamed b r =
    r.pdf_status ≡ PdfStatus.generated
    → (key : Text) × (r.pdf_storage_key ≡ some key) × Holds (trim_space key) b

record AreNamed (s : Service) (w : World) : Type 0 where
  pub honest : IsHonest w.bucket
  pub rendered : All (λ (o : Text × PdfDocument). IsRendering s o.0 o.1) w.bucket.objects
  pub stored : All (IsNamed w.bucket) w.db.tables.acceptances

IsNamed-IsStored :
    (s : Service) (b : Bucket) (rows : List AcceptanceRow)
    → All (λ (o : Text × PdfDocument). IsRendering s o.0 o.1) b.objects
    → All (IsNamed b) rows
    → All (IsStored s b) rows
IsNamed-IsStored s b [] drawn h = tt
IsNamed-IsStored s b (r ∷ rows) drawn (here, rest) = (
  λ status.
      let (key, place, held) = here status in
      elim (Option-cases (find_object (trim_space key) b.objects)) [
        | inl absent ↦ absurd (held absent)
        | inr (doc, found) ↦
            let drawing =
              find_object-All (λ (o : Text × PdfDocument). IsRendering s o.0 o.1) (trim_space key)
                doc b.objects drawn found in
            (key, doc, place, found, drawing)
      ],
  IsNamed-IsStored s b rows drawn rest,
)

IsStored-IsNamed :
    (s : Service) (b : Bucket) (rows : List AcceptanceRow)
    → All (IsStored s b) rows
    → All (IsNamed b) rows
IsStored-IsNamed s b [] h = tt
IsStored-IsNamed s b (r ∷ rows) (here, rest) = (
  λ status. let (key, doc, place, found, drawing) = here status in (key, place, λ absent. cc),
  IsStored-IsNamed s b rows rest,
)

IsNamed-kept :
    (b c : Bucket)
    → ((name : Text) → Holds name b → Holds name c)
    → (rows : List AcceptanceRow) → All (IsNamed b) rows
    → All (IsNamed c) rows
IsNamed-kept b c keep [] h = tt
IsNamed-kept b c keep (r ∷ rows) h = (
  (λ status. let (key, place, held) = h.0 status in (key, place, keep (trim_space key) held)),
  IsNamed-kept b c keep rows h.1,
)

new_record-IsNamed :
    (b : Bucket) (input : CreateInput) (org : Text) (db : Db)
    → IsNamed b (new_record input org db.server db.step)
unfolding new_record
new_record-IsNamed b input org db status = cc

set_failed-IsNamed :
    (b : Bucket) (message : Text) (now : ℕ) (r : AcceptanceRow)
    → IsNamed b (set_failed message now r)
unfolding set_failed
set_failed-IsNamed b message now r status = cc

set_generated-IsNamed :
    (b : Bucket) (key mime : Text) (now : ℕ) (r : AcceptanceRow)
    → Holds (trim_space key) b
    → IsNamed b (set_generated (trim_space key) mime now r)
unfolding set_generated
set_generated-IsNamed b key mime now r there status =
    (trim_space key, refl, rw (trim_space_idempotent key) there)

generated_rows :
    (s : Service) (w : World) (key mime : Text) (pdf : PdfDocument)
    → AreNamed s (world w.db (upload key pdf w.bucket).1)
    → Holds (trim_space key) (upload key pdf w.bucket).1
    → (p : AcceptanceRow → Bool)
    → All (IsNamed (upload key pdf w.bucket).1) (
        update_where p
          (set_generated (trim_space key) (trim_space mime) (w.db.server.now w.db.step))
          w.db.tables.acceptances)
generated_rows s w key mime pdf h there p =
    let b = (upload key pdf w.bucket).1 in
    let now = w.db.server.now w.db.step in
    update_where-All (IsNamed b) p (set_generated (trim_space key) (trim_space mime) now)
      w.db.tables.acceptances (λ r _ _. set_generated-IsNamed b key (trim_space mime) now r there)
      h.stored

rule-AreNamed : (s : Service) → IsInductive s Any (AreNamed s)
rule-AreNamed s = record {
  reads = λ w db _ e h. record { honest = h.honest; rendered = h.rendered; stored = rw e h.stored };
  creates = λ w input _ h. record {
    honest = h.honest;
    rendered = h.rendered;
    stored =
        create_effect (λ t. All (IsNamed w.bucket) t.acceptances) w.db h.stored input
          (λ org.
            All-append (IsNamed w.bucket) w.db.tables.acceptances
              (new_record input org w.db.server w.db.step ∷ []) h.stored
              (new_record-IsNamed w.bucket input org w.db, tt));
  };
  created = λ w input r own h e. tt;
  fails = λ w org id message _ h. record {
    honest = h.honest;
    rendered = h.rendered;
    stored =
        mark_pdf_failed_effect (λ t. All (IsNamed w.bucket) t.acceptances) w.db h.stored org id
          message
          (λ p text.
            update_where-All (IsNamed w.bucket) p (set_failed text (w.db.server.now w.db.step))
              w.db.tables.acceptances
              (λ r _ _. set_failed-IsNamed w.bucket text (w.db.server.now w.db.step) r) h.stored);
  };
  uploads = λ w r pdf drawn h. record {
    honest = (upload-IsHonest_iff (key_of s r) pdf w.bucket).1 h.honest;
    rendered =
        upload-All (λ (o : Text × PdfDocument). IsRendering s o.0 o.1) (key_of s r) pdf w.bucket
          (r, drawn, refl) h.rendered;
    stored =
        IsNamed-kept w.bucket (upload (key_of s r) pdf w.bucket).1
          (λ name k. upload-Holds (key_of s r) name pdf w.bucket k) w.db.tables.acceptances
          h.stored;
  };
  generates = λ w r pdf drawn _ h done.
      let key = key_of s r in
      let before = (upload-IsHonest_iff key pdf w.bucket).0 h.honest in
      record {
        honest = h.honest;
        rendered = h.rendered;
        stored =
            mark_pdf_generated_effect (λ t. All (IsNamed (upload key pdf w.bucket).1) t.acceptances)
              w.db h.stored r.organization_id r.id key pdf.content_type
              (generated_rows s w key pdf.content_type pdf h
                (upload-Holds_new key pdf w.bucket before done));
      };
}

-- If every row that says that its document is generated has a key under which there is an object, every
-- object is a rendering by the service of a record of that name, and the storage service is honest, then
-- this holds after `Submit` too, whatever becomes of the statements, the rendering and the upload.
pub submit-IsBacked :
    (s : Service) (org : Text) (x : Submission) (w : World)
    → IsBacked s w
    → IsBacked s (submit s org x w).1
submit-IsBacked s org x w h =
    let named : AreNamed s w = record {
      honest = h.honest;
      rendered = h.rendered;
      stored = IsStored-IsNamed s w.bucket w.db.tables.acceptances h.stored;
    } in
    let after = submit_keeps s Any (AreNamed s) (rule-AreNamed s) org x w tt named in
    let w' = (submit s org x w).1 in
    record {
      honest = after.honest;
      rendered = after.rendered;
      stored = IsNamed-IsStored s w'.bucket w'.db.tables.acceptances after.rendered after.stored;
    }
