-- ===== src/Acceptances/Repository/Reading.antt =====
-- What the two lookups of internal/acceptances/repository.go read.
use mathlib.Core.Path.{ap₂}
use tecora_be.Prelude.{ℕ, ◌≡◌, refl, sym, ap, ◌∙◌, some, arith, Bool}
use tecora_be.Text.{Text, trim_space}
use tecora_be.Text.Trim.{text_eq_iff}
use tecora_be.Db.{AcceptanceRow, Server, Tables, Db, query_keeps, returning_keeps, ok}
use tecora_be.Db.Answers.{query_server, finish_ok, returning_ok}
use tecora_be.Db.Uuid.{with_uuid, with_uuid_keeps, with_uuid_ok}
use tecora_be.Db.Table.{select_first, select_first_sound}
use tecora_be.Acceptances.Repository.{
  is_record, is_for_work_order, select_record, select_by_id, get_by_id, select_by_work_order,
  get_by_work_order_id,
}

-- A SELECT leaves the tables as they are.
module _ (sv : Server) (n : ℕ) (t : Tables) where
  select_record_reads : (p : AcceptanceRow → Bool) → (select_record p sv n t).1 ≡ t
  select_record_reads p =
      returning_keeps (λ t'. t' ≡ t) (select_first p t.acceptances) (λ r. r) t t refl refl

  select_by_id_reads : (org id : Text) → (select_by_id org id sv n t).1 ≡ t
  unfolding select_by_id
  select_by_id_reads org id =
      with_uuid_keeps (λ t'. t' ≡ t) (sv.parse_uuid org)
        (λ o. with_uuid (sv.parse_uuid id) (λ i. select_record (is_record o i))) sv n t refl
        (λ o.
          with_uuid_keeps (λ t'. t' ≡ t) (sv.parse_uuid id) (λ i. select_record (is_record o i)) sv
            n t refl (λ i. select_record_reads (is_record o i)))

  select_by_work_order_reads : (org order : Text) → (select_by_work_order org order sv n t).1 ≡ t
  unfolding select_by_work_order
  select_by_work_order_reads org order =
      with_uuid_keeps (λ t'. t' ≡ t) (sv.parse_uuid org)
        (λ o. select_record (is_for_work_order o order)) sv n t refl
        (λ o. select_record_reads (is_for_work_order o order))

pub get_by_id-tables : (org id : Text) (db : Db) → (get_by_id org id db).1.tables ≡ db.tables
unfolding get_by_id
get_by_id-tables org id db =
    query_keeps (λ t. t ≡ db.tables) (select_by_id (trim_space org) (trim_space id)) db refl
      (select_by_id_reads db.server db.step db.tables (trim_space org) (trim_space id))

pub get_by_work_order_id-tables :
    (org order : Text) (db : Db) → (get_by_work_order_id org order db).1.tables ≡ db.tables
unfolding get_by_work_order_id
get_by_work_order_id-tables org order db =
    query_keeps (λ t. t ≡ db.tables) (select_by_work_order (trim_space org) (trim_space order)) db
      refl
      (select_by_work_order_reads db.server db.step db.tables (trim_space org) (trim_space order))

pub get_by_work_order_id-server :
    (org order : Text) (db : Db) → (get_by_work_order_id org order db).1.server ≡ db.server
unfolding get_by_work_order_id
get_by_work_order_id-server org order db =
    query_server (select_by_work_order (trim_space org) (trim_space order)) db

-- What a lookup by id has established of the record that it returns.
pub record IsFor (db : Db) (org id : Text) (r : AcceptanceRow) : Type 0 where
  pub organization : db.server.parse_uuid (trim_space org) ≡ some r.organization_id
  pub key : db.server.parse_uuid (trim_space id) ≡ some r.id
  pub stored : select_first (is_record r.organization_id r.id) db.tables.acceptances ≡ some r

IsFor-parsed :
    (db : Db) (org id o i : Text) (r : AcceptanceRow)
    → db.server.parse_uuid (trim_space org) ≡ some o
    → db.server.parse_uuid (trim_space id) ≡ some i
    → select_first (is_record o i) db.tables.acceptances ≡ some r
    → IsFor db org id r
IsFor-parsed db org id o i r ho hi found =
    let match = select_first_sound (is_record o i) db.tables.acceptances r found in
    let eo : r.organization_id ≡ o = ground (arith, text_eq_iff r.organization_id o) in
    let ei : r.id ≡ i = ground (arith, text_eq_iff r.id i) in
    record {
      organization = ho ∙ ap some (sym eo);
      key = hi ∙ ap some (sym ei);
      stored = ap₂ (λ a b. select_first (is_record a b) db.tables.acceptances) eo ei ∙ found;
    }

-- A record that `GetByID` returns is in the table, and it is of the organization and under the key
-- that were asked for, as the server reads their texts.
pub get_by_id-IsFor :
    (org id : Text) (db : Db) (r : AcceptanceRow)
    → (get_by_id org id db).0 ≡ ok r
    → IsFor db org id r
unfolding get_by_id select_by_id
get_by_id-IsFor org id db r h =
    let s = select_by_id (trim_space org) (trim_space id) db.server db.step db.tables in
    let (x, told, same, _) =
      finish_ok _ (λ y. y) (select_by_id (trim_space org) (trim_space id)) db r h in
    let answered : s.0 ≡ ok r = told ∙ ap ok (sym same) in
    let (o, ho, inner) =
      with_uuid_ok (db.server.parse_uuid (trim_space org)) _ db.server db.step db.tables r
        answered in
    let (i, hi, last) =
      with_uuid_ok (db.server.parse_uuid (trim_space id)) _ db.server db.step db.tables r inner in
    let (y, found, is_it, _) =
      returning_ok (select_first (is_record o i) db.tables.acceptances) (λ z. z) db.tables db.tables
        r last in
    IsFor-parsed db org id o i r ho hi (found ∙ ap some (sym is_it))
