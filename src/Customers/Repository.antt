-- ===== src/Customers/Repository.antt =====
-- internal/customers/repository.go: each method and the SQL statement that it sends.
pub mod Change
pub mod Own
pub mod Tenant
pub mod Reading
pub mod Created
use mathlib.Core.Option
use mathlib.Core.List.{filter_map}
use tecora_be.Prelude.{
  ℕ, Bool, true, false, not, ◌&&◌, ◌||◌, List, [], ◌∷◌, ◌++◌, map, Option, none, some, any,
  is_empty, if◌then◌else◌,
}
use tecora_be.Text.{Text, codes, text_eq, text_le, trim_space}
use tecora_be.Db.{
  OrganizationRow, CustomerRow, Package, no_rows, pg_error, Error, not_found,
  organization_not_found, invalid_input, database, Result, ok, err, Server, Tables, Db, Action,
  Statement, query, returning, finish,
}
use tecora_be.Db.Uuid.{with_uuid}
use tecora_be.Db.Table.{select_first, select_all, update_where, order_by}
use tecora_be.Db.Nullable.{NullableString, trimmed}
use tecora_be.Db.Builder.{Builder, add_clause, add_nullable, run}
use tecora_be.Organizations.Model.{is_none}
use tecora_be.Customers.Model.{Customer, CreateInput, UpdateInput, validate_name, scan_customer}

unfoldable pub translate_row_error : Error → Error
translate_row_error (database no_rows) = not_found Package.customers
translate_row_error e = e

unfoldable pub translate_write_error : Error → Error
unfolding trim_space text_eq
translate_write_error (database no_rows) = not_found Package.customers
translate_write_error (database (pg_error code)) =
    if text_eq (trim_space code) (codes "23503")
    then organization_not_found Package.customers
    else database (pg_error code)
translate_write_error e = e

abbrev pub is_live : CustomerRow → Bool
is_live c = is_none c.deleted_at

abbrev pub is_of : Text → CustomerRow → Bool
is_of org c = text_eq c.organization_id org && is_live c

abbrev pub is_customer : Text → Text → CustomerRow → Bool
is_customer org id c = text_eq c.organization_id org && text_eq c.id id && is_live c

-- JOIN organizations o ON o.id = c.organization_id
unfoldable pub join_organization : Tables → CustomerRow → Option (CustomerRow × OrganizationRow)
join_organization t c =
    Option.map (λ o. (c, o)) (select_first (λ o. text_eq o.id c.organization_id) t.organizations)

-- A row, joined with its organization, and the tables `t'` after the statement.
abbrev pub joined :
    Option CustomerRow → Tables → Tables → Result (CustomerRow × OrganizationRow) × Tables
joined none t t' = (err (database no_rows), t)
joined (some c) t t' = ((returning (join_organization t' c) (λ p. p) t t).0, t')

-- ORDER BY c.name ASC, c.id ASC
unfoldable pub customer_le : Server → CustomerRow → CustomerRow → Bool
unfolding text_le
customer_le sv c d =
    not (sv.collate_le d.name c.name) || (sv.collate_le c.name d.name && text_le c.id d.id)

unfoldable pub select_active : Text → Statement (List (CustomerRow × OrganizationRow))
unfolding with_uuid
select_active organization_id sv n t =
    with_uuid (sv.parse_uuid organization_id)
      (λ org _ _ _. (
        ok (
            filter_map (join_organization t)
              (order_by (customer_le sv) (select_all (is_of org) t.customers))),
        t,
      ))
      sv n t

unfoldable pub list_active_by_organization_id : Text → Action (List Customer)
unfolding select_active customer_le join_organization scan_customer trim_space
list_active_by_organization_id organization_id db =
    finish (λ e. e) (map scan_customer) (query (select_active (trim_space organization_id)) db)

-- A statement whose first two parameters are UUIDs.
abbrev pub with_uuids : {A : Type 0} → Text → Text → (Text → Text → Statement A) → Statement A
with_uuids organization_id customer_id f sv n t =
    with_uuid (sv.parse_uuid organization_id) (λ org. with_uuid (sv.parse_uuid customer_id) (f org))
      sv n t

unfoldable pub select_customer : Text → Text → Statement (CustomerRow × OrganizationRow)
unfolding join_organization
select_customer org id sv n t = joined (select_first (is_customer org id) t.customers) t t

unfoldable pub get_by_id : Text → Text → Action Customer
unfolding select_customer with_uuid scan_customer translate_row_error trim_space
get_by_id organization_id customer_id db =
    finish translate_row_error scan_customer
      (query (with_uuids (trim_space organization_id) (trim_space customer_id) select_customer) db)

unfoldable pub new_customer : CreateInput → Text → Text → Server → ℕ → CustomerRow
new_customer input org name sv n = record {
  id = sv.gen_random_uuid n;
  organization_id = org;
  name = name;
  email = input.email;
  phone = input.phone;
  address = input.address;
  notes = input.notes;
  created_at = sv.now n;
  updated_at = sv.now n;
  deleted_at = none;
}

-- 23505: the primary key; 23503: there is no such organization.
unfoldable pub insert_customer :
    CreateInput → Text → Text → Statement (CustomerRow × OrganizationRow)
unfolding new_customer join_organization
insert_customer input name org sv n t =
    let row = new_customer input org name sv n in
    if any (λ c. text_eq c.id row.id) t.customers
    then (err (database (pg_error (codes "23505"))), t)
    else if any (λ o. text_eq o.id org) t.organizations
    then joined (some row) t (record t { customers = t.customers ++ row ∷ [] })
    else (err (database (pg_error (codes "23503"))), t)

unfoldable pub insert : CreateInput → Text → Text → Statement (CustomerRow × OrganizationRow)
unfolding insert_customer with_uuid
insert input organization_id name sv n t =
    with_uuid (sv.parse_uuid organization_id) (insert_customer input name) sv n t

unfoldable pub create : CreateInput → Action Customer
unfolding insert scan_customer translate_write_error validate_name trim_space
create input db =
    let name = trim_space input.name in
    let organization_id = trim_space input.organization_id in
    if is_empty organization_id || not (validate_name name)
    then (err (invalid_input Package.customers), db)
    else finish translate_write_error scan_customer (query (insert input organization_id name) db)

pub data Column : Type 0 where
  name email phone address notes : Column

-- `args := []any{organizationID, customerID}; argPos := 3`
unfoldable pub start : Text → Text → Builder Column
start organization_id customer_id = record {
  clauses = [];
  args = some organization_id ∷ some customer_id ∷ [];
  arg_pos = 3;
}

-- The `if input.Name.Set { … }`; `none` is its early return.
unfoldable pub add_name : NullableString → Builder Column → Option (Builder Column)
unfolding add_clause trimmed validate_name
add_name field b =
    if field.set
    then (if field.null || not (validate_name (trimmed field))
        then none
        else some (add_clause name (some (trimmed field)) b))
    else some b

unfoldable pub add_texts : UpdateInput → Builder Column → Builder Column
unfolding add_nullable
add_texts input b = add_nullable notes input.notes (
    add_nullable address input.address
      (add_nullable phone input.phone (add_nullable email input.email b)))

abbrev pub unless_empty : Builder Column → Option (Builder Column)
unless_empty b = if is_empty b.clauses then none else some b

abbrev pub build_from : UpdateInput → Option (Builder Column) → Option (Builder Column)
build_from input none = none
build_from input (some b) = unless_empty (add_texts input b)

-- The clauses of `Update`, or its refusal.
unfoldable pub build : Text → Text → UpdateInput → Option (Builder Column)
unfolding start add_name add_texts
build organization_id customer_id input =
    build_from input (add_name input.name (start organization_id customer_id))

abbrev keep_or : {A : Type 0} → A → Option A → A
keep_or a none = a
keep_or _ (some a) = a

unfoldable pub assign : Column → Option Text → CustomerRow → CustomerRow
assign name v c = record c { name = keep_or c.name v }
assign email v c = record c { email = v }
assign phone v c = record c { phone = v }
assign address v c = record c { address = v }
assign notes v c = record c { notes = v }

unfoldable pub change_customer : Builder Column → Server → ℕ → CustomerRow → CustomerRow
unfolding assign
change_customer b sv n c = let d = run assign b c in record d { updated_at = sv.now n }

unfoldable pub update_customer :
    Builder Column → Text → Text → Statement (CustomerRow × OrganizationRow)
unfolding change_customer join_organization
update_customer b org id sv n t =
    let chosen = is_customer org id in
    let change = change_customer b sv n in
    joined (Option.map change (select_first chosen t.customers)) t
      (record t { customers = update_where chosen change t.customers })

-- `Update` sends nothing where it refuses the input.
abbrev pub send_update : Text → Text → Option (Builder Column) → Action Customer
send_update organization_id customer_id none db = (err (invalid_input Package.customers), db)
send_update organization_id customer_id (some b) db =
    finish translate_row_error scan_customer
      (query (with_uuids organization_id customer_id (update_customer b)) db)

unfoldable pub update : Text → Text → UpdateInput → Action Customer
unfolding build update_customer with_uuid scan_customer translate_row_error trim_space
update organization_id customer_id input db =
    let org = trim_space organization_id in
    let id = trim_space customer_id in
    if is_empty org || is_empty id
    then (err (invalid_input Package.customers), db)
    else send_update org id (build org id input) db

unfoldable pub mark_deleted : ℕ → CustomerRow → CustomerRow
mark_deleted now c = record c { deleted_at = some now; updated_at = now }

unfoldable pub delete_customer : Text → Text → Statement Text
unfolding mark_deleted
delete_customer org id sv n t =
    let chosen = is_customer org id in
    let rows = update_where chosen (mark_deleted (sv.now n)) t.customers in
    returning (select_first chosen t.customers) (λ c. c.id) t (record t { customers = rows })

unfoldable pub delete : Text → Text → Action (Unit {0})
unfolding delete_customer with_uuid translate_row_error trim_space
delete organization_id customer_id db =
    finish translate_row_error (λ _. tt)
      (query (with_uuids (trim_space organization_id) (trim_space customer_id) delete_customer) db)
