-- ===== src/Customers/Repository/Created.antt =====
-- A customer that `Create` of internal/customers/repository.go has returned, read again by `GetByID`.
use mathlib.Core.Path.{subst}
use tecora_be.Prelude.{
  ℕ, ◌≡◌, refl, sym, ap, ◌∙◌, true, false, not, ◌||◌, List, [], ◌∷◌, ◌++◌, Option, some, arith, any,
  is_empty, Bool-cases, inl, inr,
}
use tecora_be.Text.{Text, text_eq, trim_space}
use tecora_be.Text.Trim.{text_eq_refl}
use tecora_be.Db.{
  CustomerRow, OrganizationRow, Server, Tables, Db, Statement, query, finish, Result, ok, sound,
}
use tecora_be.Db.Uuid.{with_uuid, with_uuid_ok}
use tecora_be.Db.Table.{select_first, select_first-append}
use tecora_be.Db.Answers.{finish_ok, query_server}
use tecora_be.Customers.Model.{Customer, CreateInput, validate_name, scan_customer}
use tecora_be.Customers.Repository.{
  is_customer, join_organization, select_customer, get_by_id, new_customer, insert_customer, insert,
  create, translate_write_error,
}
use tecora_be.Customers.Repository.Reading.{owns, joined_row}

-- What an INSERT that succeeds has found and done.
record IsInserted (row : CustomerRow) (owner : OrganizationRow) (t t' : Tables) : Type 0 where
  fresh : any (λ c. text_eq c.id row.id) t.customers ≡ false
  owned : select_first (owns row) t.organizations ≡ some owner
  customers : t'.customers ≡ t.customers ++ row ∷ []
  organizations : t'.organizations ≡ t.organizations

insert_customer_ok :
    (input : CreateInput) (name org : Text) (sv : Server) (n : ℕ) (t : Tables)
    (p : CustomerRow × OrganizationRow)
    → (insert_customer input name org sv n t).0 ≡ ok p
    → let row = new_customer input org name sv n in
      (owner : OrganizationRow) × (p ≡ (row, owner))
      × IsInserted row owner t (insert_customer input name org sv n t).1
unfolding insert_customer
insert_customer_ok input name org sv n t p h =
    let row = new_customer input org name sv n in
    elim (Bool-cases (any (λ c. text_eq c.id row.id) t.customers)) [
      | inl taken ↦ ground arith
      | inr free ↦ elim (Bool-cases (any (λ o. text_eq o.id org) t.organizations)) [
        | inr missing ↦ ground arith
        | inl there ↦
            let (owner, owned, both) =
              joined_row row t (record t { customers = t.customers ++ row ∷ [] }) p
                (rw (free, there) at h) in
            (
              owner,
              both,
              rw (free, there)
                  (record { fresh = free; owned = owned; customers = refl; organizations = refl }),
            )
      ]
    ]

-- A key that no row has, no customer of an organization has.
none_named :
    (org id : Text) (rows : List CustomerRow)
    → any (λ c. text_eq c.id id) rows ≡ false
    → any (is_customer org id) rows ≡ false
none_named org id [] h = refl
none_named org id (c ∷ rows) h = ground (arith, none_named org id rows)

-- The lookup of a row that has been inserted.
found_inserted :
    (organization_id org : Text) (db : Db) (t : Tables) (row : CustomerRow)
    (owner : OrganizationRow)
    → db.server.fault db.step ≡ sound
    → db.server.parse_uuid (trim_space organization_id) ≡ some org
    → db.server.parse_uuid (trim_space row.id) ≡ some row.id
    → is_customer org row.id row ≡ true
    → IsInserted row owner t db.tables
    → (get_by_id organization_id row.id db).0 ≡ ok (scan_customer (row, owner))
unfolding get_by_id select_customer with_uuid join_organization
found_inserted organization_id org db t row owner answered read_org read_id mine i =
    let p = is_customer org row.id in
    let found : select_first p (t.customers ++ row ∷ []) ≡ some row =
      select_first-append p t.customers row (none_named org row.id t.customers i.fresh)
      ∙ ground arith in
    rw (answered, read_org, read_id, i.customers, found, i.organizations, i.owned) refl

mine_new :
    (input : CreateInput) (org name : Text) (sv : Server) (n : ℕ)
    → let row = new_customer input org name sv n in is_customer org row.id row ≡ true
unfolding new_customer
mine_new input org name sv n = ground (arith, text_eq_refl org, text_eq_refl (sv.gen_random_uuid n))

-- `Create` has returned a customer only where it has sent its statement.
create_sent :
    (input : CreateInput) (db : Db) (c : Customer)
    → (create input db).0 ≡ ok c
    → create input db
      ≡ finish translate_write_error scan_customer
          (query (insert input (trim_space input.organization_id) (trim_space input.name)) db)
unfolding create
create_sent input db c h =
    elim (Bool-cases (
      is_empty (trim_space input.organization_id) || not (validate_name (trim_space input.name)))) [
        | inl refused ↦ ground arith
        | inr accepted ↦ rw accepted refl
      ]

-- The key that the server makes next is read as itself.
abbrev pub ReadsOwnKey : Db → Type 0
ReadsOwnKey db =
    let key = db.server.gen_random_uuid db.step in db.server.parse_uuid (trim_space key) ≡ some key

with_uuid_tables :
    (id : Option Text) (i : Text) (f : Text → Statement (CustomerRow × OrganizationRow))
    (sv : Server) (n : ℕ) (t : Tables)
    → id ≡ some i
    → (with_uuid id f sv n t).1 ≡ (f i sv n t).1
unfolding with_uuid
with_uuid_tables id i f sv n t e = rw e refl

abbrev sent : CreateInput → Statement (CustomerRow × OrganizationRow)
sent input = insert input (trim_space input.organization_id) (trim_space input.name)

get-sent :
    (input : CreateInput) (db : Db) (c : Customer)
    → ReadsOwnKey db
    → (finish translate_write_error scan_customer (query (sent input) db)).0 ≡ ok c
    → (query (sent input) db).1.server.fault (query (sent input) db).1.step ≡ sound
    → (get_by_id input.organization_id c.id (query (sent input) db).1).0 ≡ ok c
unfolding insert
get-sent input db c own h answered =
    let name = trim_space input.name in
    let key = db.server.parse_uuid (trim_space input.organization_id) in
    let (p, told, shown, tables) =
      finish_ok translate_write_error scan_customer (sent input) db c h in
    let (org, parsed, inserted) =
      with_uuid_ok key (insert_customer input name) db.server db.step db.tables p told in
    let (owner, both, done) =
      insert_customer_ok input name org db.server db.step db.tables p inserted in
    let row = new_customer input org name db.server db.step in
    let wrote =
      tables
      ∙ with_uuid_tables key org (insert_customer input name) db.server db.step db.tables parsed in
    let is_c : c ≡ scan_customer (row, owner) = shown ∙ ap scan_customer both in
    let same = query_server (sent input) db in
    let named : row.id ≡ db.server.gen_random_uuid db.step = unfold new_customer in refl in
    let own_id : db.server.parse_uuid (trim_space row.id) ≡ some row.id = rw named own in
    let found =
      found_inserted input.organization_id org (query (sent input) db).1 db.tables row owner
        answered
        (ap (λ (sv : Server). sv.parse_uuid (trim_space input.organization_id)) same ∙ parsed)
        (ap (λ (sv : Server). sv.parse_uuid (trim_space row.id)) same ∙ own_id)
        (mine_new input org name db.server db.step)
        (subst (IsInserted row owner db.tables) (sym wrote) done) in
    let id : c.id ≡ row.id = ap (λ (d : Customer). d.id) is_c ∙ (unfold scan_customer in refl) in
    ap (λ k. (get_by_id input.organization_id k (query (sent input) db).1).0) id
    ∙ found
    ∙ ap ok (sym is_c)

-- After `Create` has returned a customer, `GetByID` of its key for the same organization, when it is
-- answered, returns that customer, if the server reads the key that it makes for
-- the customer as itself.
pub create-get_by_id :
    (input : CreateInput) (db : Db) (c : Customer)
    → ReadsOwnKey db
    → (create input db).0 ≡ ok c
    → (create input db).1.server.fault (create input db).1.step ≡ sound
    → (get_by_id input.organization_id c.id (create input db).1).0 ≡ ok c
create-get_by_id input db c own h answered =
    let e = create_sent input db c h in
    let told = sym (ap (λ (r : Result Customer × Db). r.0) e) ∙ h in
    let sends = ap (λ (r : Result Customer × Db). r.1) e in
    let next = sym (ap (λ (d : Db). d.server.fault d.step) sends) ∙ answered in
    ap (λ (d : Db). (get_by_id input.organization_id c.id d).0) sends
    ∙ get-sent input db c own told next
