-- ===== src/WorkOrders/Repository.antt =====
-- internal/workorders/repository.go: each method and the SQL statement that it sends. The scan of a
-- row copies it.
pub mod Invariant
pub mod Frame
pub mod Tenant
pub mod Reading
use tecora_be.Prelude.{
  ℕ, Bool, true, false, not, ◌&&◌, ◌||◌, List, [], ◌∷◌, ◌++◌, none, some, any, is_empty, ltb, ◌==◌,
  if◌then◌else◌,
}
use tecora_be.Text.{Text, codes, text_eq, text_le, trim_space}
use tecora_be.Db.{
  Date, WorkOrderRow, Package, no_rows, pg_error, Error, not_found, conflict, invalid_input,
  database, Result, ok, err, Server, Tables, Db, Action, Statement, query, returning, finish,
}
use tecora_be.Db.Uuid.{with_uuid}
use tecora_be.Db.Table.{select_first, select_all, order_by}
use tecora_be.Organizations.Model.{is_none}
use tecora_be.WorkOrders.Model.{CreateInput, is_zero}

unfoldable pub translate_row_error : Error → Error
translate_row_error (database no_rows) = not_found Package.workorders
translate_row_error e = e

unfoldable pub translate_write_error : Error → Error
unfolding text_eq
translate_write_error (database (pg_error code)) =
    if text_eq code (codes "23505") then conflict Package.workorders else database (pg_error code)
translate_write_error e = e

abbrev pub is_live : WorkOrderRow → Bool
is_live w = is_none w.deleted_at

abbrev pub is_of : Text → WorkOrderRow → Bool
is_of org w = text_eq w.organization_id org && is_live w

abbrev pub is_order : Text → Text → WorkOrderRow → Bool
is_order org work_order_id w =
    text_eq w.organization_id org && text_eq w.work_order_id work_order_id && is_live w

-- The texts that `Create` trims and tests, and sends.
unfoldable pub trim_input : CreateInput → CreateInput
unfolding trim_space
trim_input input = record input {
  organization_id = trim_space input.organization_id;
  work_order_id = trim_space input.work_order_id;
  customer_name = trim_space input.customer_name;
  customer_address = trim_space input.customer_address;
}

abbrev pub is_refused : CreateInput → Bool
is_refused input =
    is_empty input.organization_id
    || is_empty input.work_order_id
    || is_empty input.customer_name
    || is_empty input.customer_address
    || is_zero input.job_date

unfoldable pub new_work_order : CreateInput → Text → Server → ℕ → WorkOrderRow
new_work_order input org sv n = record {
  id = sv.gen_random_uuid n;
  organization_id = org;
  work_order_id = input.work_order_id;
  customer_name = input.customer_name;
  customer_email = input.customer_email;
  customer_phone = input.customer_phone;
  customer_address = input.customer_address;
  job_date = input.job_date;
  status = input.status;
  created_at = sv.now n;
  updated_at = sv.now n;
  deleted_at = none;
}

-- 23505: the primary key, or the unique index on the live rows; 23503: no such organization.
unfoldable pub insert_work_order : CreateInput → Text → Statement WorkOrderRow
unfolding new_work_order
insert_work_order input org sv n t =
    let row = new_work_order input org sv n in
    if any (λ w. text_eq w.id row.id) t.work_orders
      || any (is_order org row.work_order_id) t.work_orders
    then (err (database (pg_error (codes "23505"))), t)
    else if any (λ o. text_eq o.id org) t.organizations
    then (ok row, record t { work_orders = t.work_orders ++ row ∷ [] })
    else (err (database (pg_error (codes "23503"))), t)

unfoldable pub insert : CreateInput → Statement WorkOrderRow
unfolding insert_work_order with_uuid
insert input sv n t =
    with_uuid (sv.parse_uuid input.organization_id) (insert_work_order input) sv n t

unfoldable pub create : CreateInput → Action WorkOrderRow
unfolding trim_input is_zero insert translate_write_error
create input db =
    let trimmed = trim_input input in
    if is_refused trimmed
    then (err (invalid_input Package.workorders), db)
    else finish translate_write_error (λ w. w) (query (insert trimmed) db)

-- ORDER BY job_date DESC, created_at DESC, id ASC
unfoldable pub date_lt : Date → Date → Bool
date_lt a b =
    ltb a.year b.year
    || (a.year == b.year && (ltb a.month b.month || (a.month == b.month && ltb a.day b.day)))

unfoldable pub work_order_le : WorkOrderRow → WorkOrderRow → Bool
unfolding date_lt text_le
work_order_le v w =
    date_lt w.job_date v.job_date
    || (not (date_lt v.job_date w.job_date)
        && (ltb w.created_at v.created_at || (w.created_at == v.created_at && text_le v.id w.id)))

unfoldable pub select_active : Text → Statement (List WorkOrderRow)
unfolding work_order_le with_uuid
select_active organization_id sv n t =
    with_uuid (sv.parse_uuid organization_id)
      (λ org _ _ _. (ok (order_by (work_order_le) (select_all (is_of org) t.work_orders)), t)) sv n
      t

unfoldable pub list_active_by_organization_id : Text → Action (List WorkOrderRow)
unfolding select_active trim_space
list_active_by_organization_id organization_id db =
    finish (λ e. e) (λ w. w) (query (select_active (trim_space organization_id)) db)

unfoldable pub select_order : Text → Text → Statement WorkOrderRow
unfolding with_uuid
select_order organization_id work_order_id sv n t =
    with_uuid (sv.parse_uuid organization_id)
      (λ org _ _ _.
        returning (select_first (is_order org work_order_id) t.work_orders) (λ w. w) t t)
      sv n t

unfoldable pub get_by_work_order_id : Text → Text → Action WorkOrderRow
unfolding select_order trim_space translate_row_error
get_by_work_order_id organization_id work_order_id db =
    finish translate_row_error (λ w. w)
      (query (select_order (trim_space organization_id) (trim_space work_order_id)) db)
