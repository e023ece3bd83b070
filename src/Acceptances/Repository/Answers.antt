-- ===== src/Acceptances/Repository/Answers.antt =====
-- The methods of internal/acceptances/repository.go where the server answers: the value and the
-- database afterwards.
use tecora_be.Prelude.{◌+◌, ◌≡◌, true, false, List, [], ◌∷◌, ◌++◌, none, some, any}
use tecora_be.Text.{Text, text_eq, trim_space}
use tecora_be.Db.{AcceptanceRow, Package, not_found, ok, err, Db, sound}
use tecora_be.Db.Table.{select_first, update_where}
use tecora_be.Acceptances.Model.{CreateInput}
use tecora_be.Db.Uuid.{with_uuid}
use tecora_be.Acceptances.Repository.{
  is_record, is_for_work_order, new_record, insert_record, insert, create, change_record,
  set_generated, mark_pdf_generated, select_by_id, get_by_id, select_by_work_order,
  get_by_work_order_id, translate_row_error,
}

abbrev pub with_acceptances : List AcceptanceRow → Db → Db
with_acceptances rows db = record db {
  step = db.step + 1;
  tables = record db.tables { acceptances = rows };
}

module _ (db : Db) (answered : db.server.fault db.step ≡ sound) where
  module _ (org : Text) {o : Text} (owner : db.server.parse_uuid (trim_space org) ≡ some o) where
    pub get_by_work_order_id-missing :
        (order : Text)
        → select_first (is_for_work_order o (trim_space order)) db.tables.acceptances ≡ none
        → get_by_work_order_id org order db
          ≡ (err (not_found Package.acceptances), record db { step = db.step + 1 })
    unfolding get_by_work_order_id select_by_work_order with_uuid translate_row_error
    get_by_work_order_id-missing order h = rw (answered, owner, h)

    pub get_by_work_order_id-found :
        (order : Text) (r : AcceptanceRow)
        → select_first (is_for_work_order o (trim_space order)) db.tables.acceptances ≡ some r
        → get_by_work_order_id org order db ≡ (ok r, record db { step = db.step + 1 })
    unfolding get_by_work_order_id select_by_work_order with_uuid translate_row_error
    get_by_work_order_id-found order r h = rw (answered, owner, h)

    pub get_by_id-found :
        (id : Text) {i : Text} (r : AcceptanceRow)
        → db.server.parse_uuid (trim_space id) ≡ some i
        → select_first (is_record o i) db.tables.acceptances ≡ some r
        → get_by_id org id db ≡ (ok r, record db { step = db.step + 1 })
    unfolding get_by_id select_by_id with_uuid translate_row_error
    get_by_id-found id r key h = rw (answered, owner, key, h)

    pub mark_pdf_generated-found :
        (id key mime : Text) {i : Text} (r : AcceptanceRow)
        → db.server.parse_uuid (trim_space id) ≡ some i
        → select_first (is_record o i) db.tables.acceptances ≡ some r
        → mark_pdf_generated org id key mime db ≡ (
          ok (set_generated (trim_space key) (trim_space mime) (db.server.now db.step) r),
          with_acceptances
              (update_where
                (is_record o i)
                (set_generated (trim_space key) (trim_space mime) (db.server.now db.step))
                db.tables.acceptances)
              db,
        )
    unfolding mark_pdf_generated change_record with_uuid translate_row_error
    mark_pdf_generated-found id key mime r at h = rw (answered, owner, at, h)

  pub create-new :
      (input : CreateInput) {o : Text}
      → db.server.parse_uuid (trim_space input.organization_id) ≡ some o
      → any (λ r. text_eq r.id (db.server.gen_random_uuid db.step)) db.tables.acceptances ≡ false
      → any (is_for_work_order o (trim_space input.work_order_id)) db.tables.acceptances ≡ false
      → any (λ g. text_eq g.id o) db.tables.organizations ≡ true
      → create input db ≡ (
        ok (new_record input o db.server db.step),
        with_acceptances (db.tables.acceptances ++ new_record input o db.server db.step ∷ []) db,
      )
  unfolding create insert with_uuid insert_record new_record
  create-new input owner key order there = rw (answered, owner, key, order, there)
