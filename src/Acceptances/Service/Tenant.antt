-- ===== src/Acceptances/Service/Tenant.antt =====
-- Whose rows `Submit` of internal/acceptances/service.go writes.
use tecora_be.Prelude.{◌≡◌, refl, sym, ap, ◌∙◌, Option, some}
use tecora_be.Text.{Text, trim_space}
use tecora_be.Text.Trim.{trim_space_idempotent}
use tecora_be.Db.{Server, Tables, Db}
use tecora_be.Db.Tenant.{OwnRows, OwnRows-refl, OwnRows-eq, OwnRows-trans}
use tecora_be.Db.Answers.{query_server}
use tecora_be.Acceptances.Model.{Submission}
use tecora_be.Acceptances.Repository.{
  insert, create, change_record, set_generated, mark_pdf_generated, fail_record, mark_pdf_failed,
}
use tecora_be.Acceptances.Repository.Tenant.{
  create-OwnRows, create-owner, mark_pdf_generated-OwnRows, mark_pdf_failed-OwnRows,
}
use tecora_be.Acceptances.Storage.{upload}
use tecora_be.Acceptances.Service.{Service, World, key_of, submit}
use tecora_be.Acceptances.Service.Submit.{world, IsInductive, submit_keeps}

-- What PostgreSQL reads as a UUID it prints in the canonical form, which it reads as the same UUID.
abbrev pub IsCanonical : Server → Type 0
IsCanonical sv = (s k : Text) → sv.parse_uuid s ≡ some k → sv.parse_uuid (trim_space k) ≡ some k

-- The server is the same, and only rows of one organization differ.
record Since (sv : Server) (t : Tables) (key : Option Text) (w : World) : Type 0 where
  pub server : w.db.server ≡ sv
  pub rows : OwnRows key t w.db.tables

module _ (sv : Server) (t : Tables) (key : Option Text) (canonical : IsCanonical sv) where
  -- The server reads this organization as the key.
  abbrev IsOwn : Text → Type 0
  IsOwn org = sv.parse_uuid (trim_space org) ≡ key

  later :
      (w : World) (db : Db) (org : Text)
      → IsOwn org
      → Since sv t key w
      → db.server ≡ w.db.server
      → OwnRows (w.db.server.parse_uuid (trim_space org)) w.db.tables db.tables
      → (db.server ≡ sv) × OwnRows key t db.tables
  later w db org own h same step =
      let read : w.db.server.parse_uuid (trim_space org) ≡ key =
        ap (λ (s : Server). s.parse_uuid (trim_space org)) h.server ∙ own in
      (same ∙ h.server, OwnRows-trans key t w.db.tables db.tables h.rows (rw (← read) step))

  IsOwn-rule : (s : Service) → IsInductive s IsOwn (Since sv t key)
  unfolding create mark_pdf_failed mark_pdf_generated
  IsOwn-rule s = record {
    reads = λ w db same e h. record {
      server = same ∙ h.server;
      rows = OwnRows-trans key t w.db.tables db.tables h.rows (OwnRows-eq key w.db.tables _ e);
    };
    creates = λ w input own h.
        let (server, rows) =
          later w (create input w.db).1 input.organization_id own h
            (query_server (insert input) w.db) (create-OwnRows w.db input) in
        record { server = server; rows = rows };
    created = λ w input r own h e.
        let read =
          ap (λ (s : Server). s.parse_uuid (trim_space input.organization_id)) (sym h.server)
          ∙ create-owner w.db input r e in
        canonical (trim_space input.organization_id) r.organization_id read ∙ (sym read ∙ own);
    fails = λ w org id message own h.
        let (server, rows) =
          later w (mark_pdf_failed org id message w.db).1 org own h
            (query_server (fail_record (trim_space org) (trim_space id) message) w.db)
            (mark_pdf_failed-OwnRows w.db org id message) in
        record { server = server; rows = rows };
    uploads = λ w r pdf _ h. record { server = h.server; rows = h.rows };
    generates = λ w r pdf _ own h _.
        let name = key_of s r in
        let (server, rows) =
          later (world w.db (upload name pdf w.bucket).1)
            (mark_pdf_generated r.organization_id r.id name pdf.content_type w.db).1
            r.organization_id own h
            (query_server
              (change_record (trim_space r.organization_id) (trim_space r.id)
                (set_generated (trim_space name) (trim_space pdf.content_type)))
              w.db)
            (mark_pdf_generated-OwnRows w.db r.organization_id r.id name pdf.content_type) in
        record { server = server; rows = rows };
  }

-- Whatever becomes of its steps, `Submit` writes no row of another organization than the one it is
-- given, and no organization, user or customer.
pub submit-OwnRows :
    (s : Service) (org : Text) (x : Submission) (w : World)
    → IsCanonical w.db.server
    → OwnRows (w.db.server.parse_uuid (trim_space org)) w.db.tables (submit s org x w).1.db.tables
submit-OwnRows s org x w canonical =
    let key = w.db.server.parse_uuid (trim_space org) in
    (submit_keeps s (IsOwn w.db.server w.db.tables key canonical)
      (Since w.db.server w.db.tables key) (IsOwn-rule w.db.server w.db.tables key canonical s) org x
      w (ap w.db.server.parse_uuid (trim_space_idempotent org))
      (record { server = refl; rows = OwnRows-refl key w.db.tables })).rows
