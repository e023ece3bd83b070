-- ===== src/Acceptances/Service/Delivery.antt =====
-- A submission from the form to the document: what `Submit` and then `GetPDF` do where each service
-- that they call does its part.
use tecora_be.Prelude.{
  ℕ, ◌+◌, ◌≡◌, refl, ◌∙◌, ap, true, false, List, [], ◌∷◌, ◌++◌, none, some, arith, any, is_empty,
}
use tecora_be.Text.{Text, text_eq, trim_space}
use tecora_be.Text.Trim.{text_eq_refl, trim_space_idempotent}
use tecora_be.Db.{AcceptanceRow, PdfStatus, Package, not_found, Result, ok, err, Db, sound}
use tecora_be.Db.Table.{select_first, update_where, select_first-append}
use tecora_be.Db.Keyed.{any_of_select_first, select_first-update_where}
use tecora_be.Acceptances.Model.{Submission, CreateInput, PdfDocument, normalize_submission}
use tecora_be.Acceptances.Repository.{
  is_record, is_for_work_order, new_record, get_by_id, get_by_work_order_id, create,
  mark_pdf_generated, set_generated,
}
use tecora_be.Acceptances.Repository.Answers.{
  with_acceptances, get_by_work_order_id-missing, get_by_id-found, mark_pdf_generated-found,
  create-new,
}
use tecora_be.Acceptances.Storage.{
  Bucket, handled, find_object, upload, upload_result, download, download_result, received,
}
use tecora_be.Acceptances.Service.{
  Service, World, key_of, submit, submit_input, after_lookup, after_create, after_render,
  after_upload, ready_key, get_pdf,
}

-- The input that the database gets.
abbrev pub addressed : CreateInput → Text → CreateInput
addressed input org = record input { organization_id = org }

none_of_owner :
    (o id : Text) (rows : List AcceptanceRow)
    → any (λ r. text_eq r.id id) rows ≡ false
    → any (is_record o id) rows ≡ false
none_of_owner o id [] h = refl
none_of_owner o id (r ∷ rows) h = ground (arith, none_of_owner o id rows)

module _ (s : Service) (org : Text) (x : Submission) (w : World) (input : CreateInput) (o : Text)
    (pdf : PdfDocument) where
  -- The row that is inserted, and the name of its document.
  abbrev pub row : AcceptanceRow
  row = new_record (addressed input (trim_space org)) o w.db.server (w.db.step + 1)

  abbrev pub document_name : Text
  document_name = trim_space (key_of s row)

  -- The submission is acceptable, its organization exists, there is no acceptance of its work order,
  -- and the key that the server makes up is new.
  pub record IsNew : Type 0 where
    pub normal : normalize_submission s.parse_time x ≡ ok input
    pub named : is_empty (trim_space org) ≡ false
    pub owner : w.db.server.parse_uuid (trim_space org) ≡ some o
    pub known : any (λ g. text_eq g.id o) w.db.tables.organizations ≡ true
    pub first :
        select_first (is_for_work_order o (trim_space input.work_order_id)) w.db.tables.acceptances
        ≡ none
    pub key :
        any
          (λ r. text_eq r.id (w.db.server.gen_random_uuid (w.db.step + 1)))
          w.db.tables.acceptances
        ≡ false

  -- The database answers the next four statements and reads its own keys, the renderer gives a
  -- document, and the storage service handles the next two requests, the first under a new name.
  pub record IsServed : Type 0 where
    pub lookup : w.db.server.fault w.db.step ≡ sound
    pub insert : w.db.server.fault (w.db.step + 1) ≡ sound
    pub mark : w.db.server.fault (w.db.step + 1 + 1) ≡ sound
    pub read : w.db.server.fault (w.db.step + 1 + 1 + 1) ≡ sound
    pub owner_again : w.db.server.parse_uuid (trim_space o) ≡ some o
    pub key_again : w.db.server.parse_uuid (trim_space row.id) ≡ some row.id
    pub rendered : s.render row ≡ ok pdf
    pub token : (t : Text) × (w.bucket.token w.bucket.step ≡ ok t)
    pub stored : w.bucket.delivery w.bucket.step ≡ handled
    pub next_token : (t : Text) × (w.bucket.token (w.bucket.step + 1) ≡ ok t)
    pub delivered : w.bucket.delivery (w.bucket.step + 1) ≡ handled
    pub free : find_object document_name w.bucket.objects ≡ none
    pub full : is_empty document_name ≡ false

  module _ (fresh : IsNew) (served : IsServed) where
    abbrev now : ℕ
    now = w.db.server.now (w.db.step + 1 + 1)

    -- The row once its document is stored.
    abbrev pub finished : AcceptanceRow
    finished = set_generated document_name (trim_space pdf.content_type) now row

    abbrev rows : List AcceptanceRow
    rows = w.db.tables.acceptances ++ row ∷ []

    abbrev db_looked : Db
    db_looked = record w.db { step = w.db.step + 1 }

    abbrev db_inserted : Db
    db_inserted = with_acceptances rows db_looked

    abbrev db_marked : Db
    db_marked =
        with_acceptances
          (update_where (is_record o row.id)
            (set_generated document_name (trim_space pdf.content_type) now) rows)
          db_inserted

    abbrev bucket_stored : Bucket
    bucket_stored = record w.bucket {
      step = w.bucket.step + 1;
      objects = (document_name, pdf) ∷ w.bucket.objects;
    }

    owner_trimmed : w.db.server.parse_uuid (trim_space (trim_space org)) ≡ some o
    owner_trimmed = ap w.db.server.parse_uuid (trim_space_idempotent org) ∙ fresh.owner

    lookup_misses :
        get_by_work_order_id (trim_space org) input.work_order_id w.db
        ≡ (err (not_found Package.acceptances), db_looked)
    lookup_misses =
        get_by_work_order_id-missing w.db served.lookup (trim_space org) owner_trimmed
          input.work_order_id fresh.first

    insert_done : create (addressed input (trim_space org)) db_looked ≡ (ok row, db_inserted)
    insert_done =
        create-new db_looked served.insert (addressed input (trim_space org)) owner_trimmed
          fresh.key (any_of_select_first _ w.db.tables.acceptances fresh.first) fresh.known

    upload_done : upload (key_of s row) pdf w.bucket ≡ (ok tt, bucket_stored)
    unfolding upload upload_result
    upload_done = rw ((served.token).1, served.stored, served.free) refl

    row_at : is_record o row.id row ≡ true
    unfolding new_record
    row_at = rw (text_eq_refl o, text_eq_refl (w.db.server.gen_random_uuid (w.db.step + 1))) refl

    row_there : select_first (is_record o row.id) rows ≡ some row
    row_there =
        select_first-append (is_record o row.id) w.db.tables.acceptances row
          (none_of_owner o row.id w.db.tables.acceptances (unfold new_record in fresh.key))
        ∙ rw row_at

    owner_back : w.db.server.parse_uuid (trim_space row.organization_id) ≡ some o
    unfolding new_record
    owner_back = served.owner_again

    mark_done :
        mark_pdf_generated row.organization_id row.id (key_of s row) pdf.content_type db_inserted
        ≡ (ok finished, db_marked)
    mark_done =
        mark_pdf_generated-found db_inserted served.mark row.organization_id owner_back row.id
          (key_of s row) pdf.content_type row served.key_again row_there

    finished_there : select_first (is_record o row.id) db_marked.tables.acceptances ≡ some finished
    unfolding set_generated
    finished_there =
        select_first-update_where (is_record o row.id) (is_record o row.id)
          (set_generated document_name (trim_space pdf.content_type) now) rows (λ r. refl)
        ∙ rw (row_there, row_at) refl

    abbrev pub after : World
    after = record { db = db_marked; bucket = bucket_stored }

    submit_done : submit s org x w ≡ (ok finished, after)
    unfolding submit submit_input after_lookup after_create after_render after_upload
    submit_done =
        rw
          (
            fresh.normal, fresh.named, lookup_misses, insert_done, served.rendered, upload_done,
            mark_done,
          )
          refl

    read_done :
        get_by_id (trim_space finished.organization_id) (trim_space finished.id) db_marked
        ≡ (ok finished, record db_marked { step = db_marked.step + 1 })
    unfolding set_generated new_record
    read_done =
        get_by_id-found db_marked served.read (trim_space o)
          (ap w.db.server.parse_uuid (trim_space_idempotent o) ∙ served.owner_again)
          (trim_space row.id) finished
          (ap w.db.server.parse_uuid (trim_space_idempotent row.id) ∙ served.key_again)
          finished_there

    download_done : (download document_name bucket_stored).0 ≡ ok (received pdf)
    unfolding download find_object download_result
    download_done =
        rw
          (
            trim_space_idempotent (key_of s row),
            (served.next_token).1,
            served.delivered,
            text_eq_refl document_name,
          )
          refl

    -- An acceptable submission of a work order that has no acceptance, where the database answers, the
    -- renderer gives a document and the storage service takes it and gives it back, becomes a record
    -- whose document is generated; `GetPDF` of that record returns the rendered document, with
    -- "application/pdf" for a content type that is blank.
    pub submit-get_pdf :
        ((submit s org x w).0 ≡ ok finished)
        × (finished.pdf_status ≡ PdfStatus.generated)
        × ((get_pdf finished.organization_id finished.id (submit s org x w).1).0
            ≡ ok (received pdf))
    unfolding get_pdf ready_key set_generated
    submit-get_pdf = (
      ap (λ (r : Result AcceptanceRow × World). r.0) submit_done,
      refl,
      rw (submit_done, read_done, trim_space_idempotent (key_of s row), served.full, download_done)
          refl,
    )
