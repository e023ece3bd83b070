-- ===== src/Acceptances/Repository/Tenant.antt =====
-- The methods of internal/acceptances/repository.go write acceptances of the organization that they
-- are given, and of no other.
use tecora_be.Prelude.{
  ℕ, ◌≡◌, refl, sym, ap, ◌∙◌, true, ◌||◌, Option, none, some, any, arith, Bool-cases, inl, inr,
}
use tecora_be.Text.{Text, text_eq, trim_space}
use tecora_be.Text.Trim.{text_eq_iff}
use tecora_be.Db.{AcceptanceRow, Server, Tables, Db, ok, query_keeps, returning_keeps}
use tecora_be.Db.Answers.{finish_ok}
use tecora_be.Db.Uuid.{with_uuid_keeps, with_uuid_ok}
use tecora_be.Db.Table.{select_first, update_where}
use tecora_be.Db.Tenant.{
  OwnRows, OwnRows-refl, uuid-OwnRows, select_all-own_row, select_all-own_change,
}
use tecora_be.Acceptances.Model.{CreateInput}
use tecora_be.Acceptances.Repository.{
  is_record, is_for_work_order, new_record, insert_record, insert, create, change_record,
  set_generated, mark_pdf_generated, set_failed, fail_stored, fail_record, mark_pdf_failed,
  truncate_error,
}

owner_of : (o i : Text) (r : AcceptanceRow) → is_record o i r ≡ true → r.organization_id ≡ o
owner_of o i r h = (text_eq_iff r.organization_id o).0 (ground arith)

module _ (sv : Server) (n : ℕ) (t : Tables) where
  insert_record-OwnRows :
      (input : CreateInput) (org : Text) → OwnRows (some org) t (insert_record input org sv n t).1
  unfolding insert_record
  insert_record-OwnRows input org =
      let row = new_record input org sv n in
      elim (Bool-cases (
        any (λ r. text_eq r.id row.id) t.acceptances
        || any (is_for_work_order row.organization_id row.work_order_id) t.acceptances)) [
          | inl taken ↦ rw taken (OwnRows-refl (some org) t)
          | inr free ↦ elim (Bool-cases (any (λ o. text_eq o.id org) t.organizations)) [
            | inr missing ↦ rw (free, missing) (OwnRows-refl (some org) t)
            | inl there ↦
                rw (free, there)
                  (record {
                    organizations = refl;
                    users = refl;
                    customers = refl;
                    acceptances = λ other apart.
                        select_all-own_row (λ (r : AcceptanceRow). r.organization_id) org other
                          apart t.acceptances row (unfold new_record in refl);
                    work_orders = λ other apart. refl;
                  })
          ]
        ]

  change_record-OwnRows :
      (org id : Text) (change : ℕ → AcceptanceRow → AcceptanceRow)
      → ((now : ℕ) (r : AcceptanceRow) → (change now r).organization_id ≡ r.organization_id)
      → OwnRows (sv.parse_uuid org) t (change_record org id change sv n t).1
  unfolding change_record
  change_record-OwnRows org id change kept = uuid-OwnRows (sv.parse_uuid org) _ sv n t (λ o.
      with_uuid_keeps (OwnRows (some o) t) (sv.parse_uuid id) _ sv n t (OwnRows-refl (some o) t)
        (λ i.
          returning_keeps (OwnRows (some o) t) (select_first (is_record o i) t.acceptances)
            (change (sv.now n)) t
            (record t {
              acceptances = update_where (is_record o i) (change (sv.now n)) t.acceptances;
            })
            (OwnRows-refl (some o) t)
            (record {
              organizations = refl;
              users = refl;
              customers = refl;
              acceptances = λ other apart.
                  select_all-own_change (λ (r : AcceptanceRow). r.organization_id) o other apart
                    (is_record o i) (change (sv.now n)) t.acceptances (owner_of o i)
                    (kept (sv.now n));
              work_orders = λ other apart. refl;
            })))

  fail_stored-OwnRows :
      (org id : Text) (stored : Option Text)
      → OwnRows (sv.parse_uuid org) t (fail_stored org id stored sv n t).1
  fail_stored-OwnRows org id none = OwnRows-refl (sv.parse_uuid org) t
  fail_stored-OwnRows org id (some message) =
      change_record-OwnRows org id (set_failed message) (λ now r. unfold set_failed in refl)

module _ (db : Db) where
  abbrev Leaves : Text → Db → Type 0
  Leaves org db' = OwnRows (db.server.parse_uuid (trim_space org)) db.tables db'.tables

  pub create-OwnRows : (input : CreateInput) → Leaves input.organization_id (create input db).1
  unfolding create insert
  create-OwnRows input =
      let key = db.server.parse_uuid (trim_space input.organization_id) in
      query_keeps (OwnRows key db.tables) (insert input) db (OwnRows-refl key db.tables) (
        uuid-OwnRows key (insert_record input) db.server db.step db.tables
          (insert_record-OwnRows db.server db.step db.tables input))

  pub mark_pdf_generated-OwnRows :
      (org id key mime : Text) → Leaves org (mark_pdf_generated org id key mime db).1
  unfolding mark_pdf_generated
  mark_pdf_generated-OwnRows org id key mime =
      let change = set_generated (trim_space key) (trim_space mime) in
      let owner = db.server.parse_uuid (trim_space org) in
      query_keeps (OwnRows owner db.tables) (change_record (trim_space org) (trim_space id) change)
        db (OwnRows-refl owner db.tables)
        (change_record-OwnRows db.server db.step db.tables (trim_space org) (trim_space id) change
          (λ now r. unfold set_generated in refl))

  pub mark_pdf_failed-OwnRows :
      (org id message : Text) → Leaves org (mark_pdf_failed org id message db).1
  unfolding mark_pdf_failed fail_record
  mark_pdf_failed-OwnRows org id message =
      let owner = db.server.parse_uuid (trim_space org) in
      query_keeps (OwnRows owner db.tables) (fail_record (trim_space org) (trim_space id) message)
        db (OwnRows-refl owner db.tables)
        (fail_stored-OwnRows db.server db.step db.tables (trim_space org) (trim_space id)
          (db.server.decode (truncate_error message)))

  inserted_owner :
      (input : CreateInput) (org : Text) (r : AcceptanceRow)
      → (insert_record input org db.server db.step db.tables).0 ≡ ok r
      → r.organization_id ≡ org
  unfolding insert_record new_record
  inserted_owner input org r h = ground arith

  -- A record that `Create` returns is of the organization that it is given.
  pub create-owner :
      (input : CreateInput) (r : AcceptanceRow)
      → (create input db).0 ≡ ok r
      → db.server.parse_uuid (trim_space input.organization_id) ≡ some r.organization_id
  unfolding create insert
  create-owner input r h =
      let (x, told, same, _) = finish_ok _ (λ y. y) (insert input) db r h in
      let (o, read, done) =
        with_uuid_ok (db.server.parse_uuid (trim_space input.organization_id)) (insert_record input)
          db.server db.step db.tables r (told ∙ ap ok (sym same)) in
      read ∙ ap some (sym (inserted_owner input o r done))
