-- ===== src/Organizations/Repository.antt =====
-- internal/organizations/repository.go: each method and the SQL statement that it sends.
pub mod Invariant
pub mod Directory
pub mod Frame
use tecora_be.Prelude.{
  ℕ, Bool, true, false, not, ◌&&◌, ◌||◌, List, [], ◌∷◌, ◌++◌, map, Option, none, some, any,
  if◌then◌else◌,
}
use tecora_be.Text.{Text, codes, text_eq, trim_space}
use tecora_be.Db.{
  OrganizationRow, DbError, no_rows, pg_error, Error, not_found, conflict, database, Result, ok,
  err, map_ok, map_err, Server, Tables, Db, Action, Statement, query, returning, finish,
}
use tecora_be.Db.{Package}
use tecora_be.Db.Table.{select_first, select_all, update_where, order_by}
use tecora_be.Organizations.Model.{Organization, UpdateInput, is_none, scan_organization}

unfoldable pub translate_row_error : Error → Error
translate_row_error (database no_rows) = not_found Package.organizations
translate_row_error e = e

unfoldable pub translate_write_error : Error → Error
unfolding trim_space text_eq
translate_write_error (database no_rows) = not_found Package.organizations
translate_write_error (database (pg_error code)) =
    if text_eq (trim_space code) (codes "23505")
    then conflict Package.organizations
    else database (pg_error code)
translate_write_error e = e

abbrev pub has_slug : Text → OrganizationRow → Bool
has_slug slug o = text_eq o.slug slug

abbrev pub is_live : OrganizationRow → Bool
is_live o = is_none o.deleted_at

-- ORDER BY name ASC, slug ASC
unfoldable pub name_slug_le : Server → OrganizationRow → OrganizationRow → Bool
name_slug_le sv a b =
    if text_eq a.name b.name then sv.collate_le a.slug b.slug else sv.collate_le a.name b.name

select_active : Statement (List OrganizationRow)
select_active sv n t = (ok (order_by (name_slug_le sv) (select_all is_live t.organizations)), t)

unfoldable pub list_active : Action (List Organization)
unfolding select_active name_slug_le scan_organization
list_active db = finish (λ e. e) (map scan_organization) (query select_active db)

unfoldable pub select_by_slug : Text → Statement OrganizationRow
select_by_slug slug sv n t =
    returning (select_first (λ o. has_slug slug o && is_live o) t.organizations) (λ o. o) t t

unfoldable pub get_by_slug : Text → Action Organization
unfolding select_by_slug scan_organization translate_row_error
get_by_slug slug db = finish translate_row_error scan_organization (query (select_by_slug slug) db)

-- The defaults of the columns are those of 000002_organizations.up.sql.
unfoldable pub new_organization : Text → Text → Server → ℕ → OrganizationRow
new_organization slug name sv n = record {
  id = sv.gen_random_uuid n;
  slug = slug;
  name = name;
  created_at = sv.now n;
  updated_at = sv.now n;
  deleted_at = none;
}

-- A second row with the key or the slug breaks a unique index: error 23505.
unfoldable pub insert_organization : Text → Text → Statement OrganizationRow
unfolding new_organization
insert_organization slug name sv n t =
    let row = new_organization slug name sv n in
    if any (λ o. text_eq o.id row.id) t.organizations || any (has_slug slug) t.organizations
    then (err (database (pg_error (codes "23505"))), t)
    else (ok row, record t { organizations = t.organizations ++ row ∷ [] })

unfoldable pub create : Text → Text → Action Organization
unfolding insert_organization scan_organization translate_write_error
create slug name db =
    finish translate_write_error scan_organization (query (insert_organization slug name) db)

-- CASE WHEN $3 IS NULL THEN deleted_at WHEN $3 THEN NULL ELSE NOW() END
unfoldable pub deleted_at_for : Option Bool → ℕ → Option ℕ → Option ℕ
deleted_at_for none now old = old
deleted_at_for (some true) now old = none
deleted_at_for (some false) now old = some now

-- COALESCE($2, name)
abbrev pub coalesce : {A : Type 0} → Option A → A → A
coalesce none old = old
coalesce (some new) old = new

unfoldable pub patch_organization : UpdateInput → ℕ → OrganizationRow → OrganizationRow
unfolding deleted_at_for
patch_organization input now o = record o {
  name = coalesce input.name o.name;
  deleted_at = deleted_at_for input.active now o.deleted_at;
  updated_at = now;
}

-- 42P08: PostgreSQL prepares no statement whose parameter has no type where it first stands, and $3
-- first stands in `$3 IS NULL`.
unfoldable pub update_organization : Text → UpdateInput → Statement OrganizationRow
unfolding patch_organization
update_organization slug input sv n t =
    let change = patch_organization input (sv.now n) in
    let rows = update_where (has_slug slug) change t.organizations in
    if sv.is_simple
    then returning (select_first (has_slug slug) t.organizations) change t
        (record t { organizations = rows })
    else (err (database (pg_error (codes "42P08"))), t)

unfoldable pub update : Text → UpdateInput → Action Organization
unfolding update_organization scan_organization translate_row_error
update slug input db =
    finish translate_row_error scan_organization (query (update_organization slug input) db)

unfoldable pub mark_deleted : ℕ → OrganizationRow → OrganizationRow
mark_deleted now o = record o { deleted_at = some now; updated_at = now }

unfoldable pub delete_organization : Text → Statement Text
unfolding mark_deleted
delete_organization slug sv n t =
    let chosen = λ (o : OrganizationRow). has_slug slug o && is_live o in
    let rows = update_where chosen (mark_deleted (sv.now n)) t.organizations in
    returning (select_first chosen t.organizations) (λ o. o.id) t
      (record t { organizations = rows })

unfoldable pub delete : Text → Action (Unit {0})
unfolding delete_organization translate_row_error
delete slug db = finish translate_row_error (λ _. tt) (query (delete_organization slug) db)
