-- ===== src/Users/Repository.antt =====
-- internal/users/repository.go: each method and the SQL statement that it sends.
pub mod Change
pub mod Invariant
pub mod Frame
use mathlib.Core.Option
use tecora_be.Prelude.{
  ℕ, Bool, true, false, not, ◌&&◌, ◌||◌, List, [], ◌∷◌, ◌++◌, map, Option, none, some, any, is_some,
  is_empty, if◌then◌else◌,
}
use mathlib.Core.List.{filter_map}
use tecora_be.Text.{Text, codes, text_eq, trim_space}
use tecora_be.Db.{
  OrganizationRow, UserRow, Package, DbError, no_rows, pg_error, Error, not_found, conflict,
  organization_not_found, invalid_input, database, Result, ok, err, Server, Tables, Db, Action,
  Statement, query, returning, finish,
}
use tecora_be.Db.Table.{select_first, select_all, update_where, order_by}
use tecora_be.Db.Nullable.{NullableString, trimmed}
use tecora_be.Db.Builder.{Builder, add_clause, add_nullable, argument, run}
use tecora_be.Organizations.Model.{is_none}
use tecora_be.Users.Model.{User, CreateInput, UpdateInput, scan_user}

unfoldable pub translate_row_error : Error → Error
translate_row_error (database no_rows) = not_found Package.users
translate_row_error e = e

unfoldable pub translate_write_error : Error → Error
unfolding trim_space text_eq
translate_write_error (database no_rows) = not_found Package.users
translate_write_error (database (pg_error code)) =
    if text_eq (trim_space code) (codes "23505")
    then conflict Package.users
    else if text_eq (trim_space code) (codes "23503")
    then organization_not_found Package.users
    else database (pg_error code)
translate_write_error e = e

abbrev pub has_clerk_id : Text → UserRow → Bool
has_clerk_id k u = text_eq u.clerk_user_id k

abbrev pub is_live : UserRow → Bool
is_live u = is_none u.deleted_at

-- JOIN organizations o ON o.id = u.organization_id
unfoldable pub join_organization : Tables → UserRow → Option (UserRow × OrganizationRow)
join_organization t u =
    Option.map (λ o. (u, o)) (select_first (λ o. text_eq o.id u.organization_id) t.organizations)

-- A row, joined with its organization as it stands in the tables `t'` after the statement.
abbrev pub joined : Option UserRow → Tables → Tables → Result (UserRow × OrganizationRow) × Tables
joined none t t' = (err (database no_rows), t)
joined (some u) t t' = ((returning (join_organization t' u) (λ p. p) t t).0, t')

unfoldable pub clerk_id_le : Server → UserRow → UserRow → Bool
clerk_id_le sv a b = sv.collate_le a.clerk_user_id b.clerk_user_id

select_active : Statement (List (UserRow × OrganizationRow))
select_active sv n t = (
  ok (filter_map (join_organization t) (order_by (clerk_id_le sv) (select_all is_live t.users))),
  t,
)

unfoldable pub list_active : Action (List User)
unfolding select_active clerk_id_le join_organization scan_user
list_active db = finish (λ e. e) (map scan_user) (query select_active db)

unfoldable pub select_by_clerk_id : Text → Statement (UserRow × OrganizationRow)
unfolding join_organization
select_by_clerk_id k sv n t = joined (select_first (λ u. has_clerk_id k u && is_live u) t.users) t t

unfoldable pub get_by_clerk_user_id : Text → Action User
unfolding select_by_clerk_id scan_user translate_row_error
get_by_clerk_user_id k db = finish translate_row_error scan_user (query (select_by_clerk_id k) db)

unfoldable pub new_user : CreateInput → Text → Server → ℕ → UserRow
new_user input organization_id sv n = record {
  id = sv.gen_random_uuid n;
  clerk_user_id = input.clerk_user_id;
  email = input.email;
  first_name = input.first_name;
  last_name = input.last_name;
  organization_id = organization_id;
  created_at = sv.now n;
  updated_at = sv.now n;
  deleted_at = none;
}

abbrev pub has_organization : Text → Tables → Bool
has_organization id t = any (λ o. text_eq o.id id) t.organizations

-- 22P02: the text of an organization is no UUID; 23505: a unique index has the user; 23503: there
-- is no such organization.
unfoldable pub insert_user_into : CreateInput → Option Text → Statement (UserRow × OrganizationRow)
unfolding new_user join_organization
insert_user_into input none sv n t = (err (database (pg_error (codes "22P02"))), t)
insert_user_into input (some organization_id) sv n t =
    let row = new_user input organization_id sv n in
    if any (λ u. text_eq u.id row.id) t.users || any (has_clerk_id row.clerk_user_id) t.users
    then (err (database (pg_error (codes "23505"))), t)
    else if has_organization organization_id t
    then joined (some row) t (record t { users = t.users ++ row ∷ [] })
    else (err (database (pg_error (codes "23503"))), t)

unfoldable pub insert_user : CreateInput → Statement (UserRow × OrganizationRow)
unfolding insert_user_into
insert_user input sv n t = insert_user_into input (sv.parse_uuid input.organization_id) sv n t

unfoldable pub create : CreateInput → Action User
unfolding insert_user scan_user translate_write_error
create input db = finish translate_write_error scan_user (query (insert_user input) db)

pub data Column : Type 0 where
  email first_name last_name organization_id : Column

-- `args := []any{clerkUserID}; argPos := 2`
unfoldable pub start : Text → Builder Column
start k = record { clauses = []; args = some k ∷ []; arg_pos = 2 }

unfoldable pub add_texts : UpdateInput → Builder Column → Builder Column
unfolding add_nullable
add_texts input b =
    add_nullable last_name input.last_name
      (add_nullable first_name input.first_name (add_nullable email input.email b))

-- The clauses of `Update`, or its refusal.
unfoldable pub build : Text → UpdateInput → Option (Builder Column)
unfolding start add_texts add_clause trimmed
build k input =
    let b = add_texts input (start k) in
    let c =
      if input.organization_id.set
      then add_clause organization_id (some (trimmed input.organization_id)) b
      else b in
    if input.organization_id.set && input.organization_id.null
    then none
    else if is_empty c.clauses
    then none
    else some c

-- The key that a text stands for where a column of type UUID takes it.
abbrev uuid_argument : Server → Option Text → Option Text
uuid_argument sv none = none
uuid_argument sv (some raw) = sv.parse_uuid raw

abbrev keep_or : {A : Type 0} → A → Option A → A
keep_or a none = a
keep_or _ (some a) = a

unfoldable pub assign : Server → Column → Option Text → UserRow → UserRow
assign sv email v u = record u { email = v }
assign sv first_name v u = record u { first_name = v }
assign sv last_name v u = record u { last_name = v }
assign sv organization_id v u = record u {
  organization_id = keep_or u.organization_id (uuid_argument sv v);
}

-- Whether the server can read each argument at the type of its column.
unfoldable pub is_readable : Server → List (Option Text) → List (Column × ℕ) → Bool
is_readable sv args [] = true
is_readable sv args ((organization_id, k) ∷ clauses) =
    is_some (uuid_argument sv (argument args k)) && is_readable sv args clauses
is_readable sv args ((_, k) ∷ clauses) = is_readable sv args clauses

unfoldable pub change_user : Server → ℕ → Builder Column → UserRow → UserRow
unfolding assign
change_user sv n b u = let v = run (assign sv) b u in record v { updated_at = sv.now n }

-- WHERE clerk_user_id = $1 AND deleted_at IS NULL, with the foreign key of the row that is found
abbrev pub change_found :
    Option UserRow
    → (UserRow → UserRow)
    → (UserRow → Bool)
    → Tables
    → Result (UserRow × OrganizationRow) × Tables
change_found none change chosen t = (err (database no_rows), t)
change_found (some u) change chosen t =
    if has_organization (change u).organization_id t
    then joined (some (change u)) t (record t { users = update_where chosen change t.users })
    else (err (database (pg_error (codes "23503"))), t)

unfoldable pub update_user : Text → Builder Column → Statement (UserRow × OrganizationRow)
unfolding is_readable change_user join_organization
update_user k b sv n t =
    let chosen = λ (u : UserRow). has_clerk_id k u && is_live u in
    if is_readable sv b.args b.clauses
    then change_found (select_first chosen t.users) (change_user sv n b) chosen t
    else (err (database (pg_error (codes "22P02"))), t)

-- `Update` sends nothing where it refuses the input.
abbrev pub send_update : Text → Option (Builder Column) → Action User
send_update k none db = (err (invalid_input Package.users), db)
send_update k (some b) db = finish translate_row_error scan_user (query (update_user k b) db)

unfoldable pub update : Text → UpdateInput → Action User
unfolding build update_user scan_user translate_row_error
update k input db = send_update k (build k input) db

unfoldable pub mark_deleted : ℕ → UserRow → UserRow
mark_deleted now u = record u { deleted_at = some now; updated_at = now }

unfoldable pub delete_user : Text → Statement Text
unfolding mark_deleted
delete_user k sv n t =
    let chosen = λ (u : UserRow). has_clerk_id k u && is_live u in
    let rows = update_where chosen (mark_deleted (sv.now n)) t.users in
    returning (select_first chosen t.users) (λ u. u.id) t (record t { users = rows })

unfoldable pub delete : Text → Action (Unit {0})
unfolding delete_user translate_row_error
delete k db = finish translate_row_error (λ _. tt) (query (delete_user k) db)
