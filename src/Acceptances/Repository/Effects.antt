-- ===== src/Acceptances/Repository/Effects.antt =====
-- What the methods of internal/acceptances/repository.go that write do to the rows: a property of
-- single rows that each change keeps holds of all rows afterwards; and the other tables stay.
use tecora_be.Prelude.{ℕ, Bool, ◌||◌, [], ◌∷◌, ◌++◌, Option, none, some, any, Bool-cases, inl, inr}
use tecora_be.Text.{Text, text_eq, trim_space}
use tecora_be.Db.{AcceptanceRow, Server, Tables, Db, query_keeps, returning_keeps}
use tecora_be.Db.Table.{select_first, update_where}
use tecora_be.Acceptances.Model.{CreateInput}
use tecora_be.Acceptances.Repository.{
  is_record, is_for_work_order, new_record, insert_record, insert, create, change_record,
  set_generated, mark_pdf_generated, set_failed, fail_stored, fail_record, mark_pdf_failed,
  truncate_error,
}
use tecora_be.Db.Uuid.{with_uuid_keeps}

-- The effects on a whole table: `Q t` for the tables with other acceptances.
module _ {κ} (Q : Tables → Type κ) where
  insert_effect :
      (input : CreateInput) (sv : Server) (n : ℕ) (t : Tables)
      → Q t
      → ((org : Text)
          → Q (record t { acceptances = t.acceptances ++ new_record input org sv n ∷ [] }))
      → Q (insert input sv n t).1
  unfolding insert
  insert_effect input sv n t h grown =
      with_uuid_keeps Q (sv.parse_uuid (trim_space input.organization_id)) (insert_record input) sv
        n t h step
    where
      step : (org : Text) → Q (insert_record input org sv n t).1
      step org =
          let row = new_record input org sv n in
          unfold insert_record in
          (elim (Bool-cases (
            any (λ r. text_eq r.id row.id) t.acceptances
            || any (is_for_work_order row.organization_id row.work_order_id) t.acceptances)) [
              | inl taken ↦ rw taken h
              | inr free ↦ elim (Bool-cases (any (λ o. text_eq o.id org) t.organizations)) [
                | inl there ↦ rw (free, there) (grown org)
                | inr missing ↦ rw (free, missing) h
              ]
            ])

  change_effect :
      (org id : Text) (change : ℕ → AcceptanceRow → AcceptanceRow) (sv : Server) (n : ℕ)
      (t : Tables)
      → Q t
      → ((p : AcceptanceRow → Bool)
          → Q (record t { acceptances = update_where p (change (sv.now n)) t.acceptances }))
      → Q (change_record org id change sv n t).1
  unfolding change_record
  change_effect org id change sv n t h changed =
      with_uuid_keeps Q (sv.parse_uuid org) _ sv n t h (λ o.
        with_uuid_keeps Q (sv.parse_uuid id) _ sv n t h (λ i.
          let rows = update_where (is_record o i) (change (sv.now n)) t.acceptances in
          returning_keeps Q (select_first (is_record o i) t.acceptances) (change (sv.now n)) t
            (record t { acceptances = rows }) h (changed (is_record o i))))

  fail_effect :
      (org id : Text) (stored : Option Text) (sv : Server) (n : ℕ) (t : Tables)
      → Q t
      → ((p : AcceptanceRow → Bool) (message : Text)
          → Q (record t {
            acceptances = update_where p (set_failed message (sv.now n)) t.acceptances;
          }))
      → Q (fail_stored org id stored sv n t).1
  fail_effect org id none sv n t h changed = h
  fail_effect org id (some message) sv n t h changed =
      change_effect org id (set_failed message) sv n t h (λ p. changed p message)

  module _ (db : Db) (h : Q db.tables) where
    pub create_effect :
        (input : CreateInput)
        → ((org : Text)
            → Q (record db.tables {
              acceptances = db.tables.acceptances ++ new_record input org db.server db.step ∷ [];
            }))
        → Q (create input db).1.tables
    unfolding create
    create_effect input grown =
        query_keeps Q (insert input) db h (insert_effect input db.server db.step db.tables h grown)

    pub mark_pdf_generated_effect :
        (org id key mime : Text)
        → ((p : AcceptanceRow → Bool)
            → Q (record db.tables {
              acceptances =
                  update_where p
                    (set_generated (trim_space key) (trim_space mime) (db.server.now db.step))
                    db.tables.acceptances;
            }))
        → Q (mark_pdf_generated org id key mime db).1.tables
    unfolding mark_pdf_generated
    mark_pdf_generated_effect org id key mime changed =
        query_keeps Q
          (change_record (trim_space org) (trim_space id)
            (set_generated (trim_space key) (trim_space mime)))
          db h
          (change_effect (trim_space org) (trim_space id)
            (set_generated (trim_space key) (trim_space mime)) db.server db.step db.tables h
            changed)

    pub mark_pdf_failed_effect :
        (org id message : Text)
        → ((p : AcceptanceRow → Bool) (stored : Text)
            → Q (record db.tables {
              acceptances =
                  update_where p (set_failed stored (db.server.now db.step)) db.tables.acceptances;
            }))
        → Q (mark_pdf_failed org id message db).1.tables
    unfolding mark_pdf_failed fail_record
    mark_pdf_failed_effect org id message changed =
        query_keeps Q (fail_record (trim_space org) (trim_space id) message) db h (
          fail_effect (trim_space org) (trim_space id) (db.server.decode (truncate_error message))
            db.server db.step db.tables h changed)
