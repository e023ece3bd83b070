-- ===== src/Customers/Repository/Reading.antt =====
-- What the methods of internal/customers/repository.go read: a customer, and one after it was created.
use mathlib.Core.List.{Memᴰ}
use tecora_be.Prelude.{
  ◌≡◌, refl, ap, ◌∙◌, Bool, true, Option, none, some, arith, Option-cases, inl, inr,
}
use tecora_be.Text.{Text, text_eq, trim_space}
use tecora_be.Text.Trim.{text_eq_iff}
use tecora_be.Db.{CustomerRow, OrganizationRow, Tables, Db, ok}
use tecora_be.Db.Uuid.{with_uuid_ok}
use tecora_be.Db.Table.{select_first, select_first_sound, select_first-mem}
use tecora_be.Db.Answers.{finish_ok}
use tecora_be.Organizations.Model.{is_none}
use tecora_be.Customers.Model.{Customer, scan_customer}
use tecora_be.Customers.Repository.{
  is_customer, join_organization, joined, with_uuids, select_customer, get_by_id,
  translate_row_error,
}

abbrev pub owns : CustomerRow → OrganizationRow → Bool
owns c o = text_eq o.id c.organization_id

unjoined :
    (c : CustomerRow) (t t' : Tables) (p : CustomerRow × OrganizationRow)
    → select_first (owns c) t'.organizations ≡ none
    → ¬ ((joined (some c) t t').0 ≡ ok p)
unfolding join_organization
unjoined c t t' p missing h = let k = rw missing at h in cc

joined_as :
    (c : CustomerRow) (o : OrganizationRow) (t t' : Tables) (p : CustomerRow × OrganizationRow)
    → select_first (owns c) t'.organizations ≡ some o
    → (joined (some c) t t').0 ≡ ok p
    → p ≡ (c, o)
unfolding join_organization
joined_as c o t t' p there h = let k = rw there at h in cc

pub joined_row :
    (c : CustomerRow) (t t' : Tables) (p : CustomerRow × OrganizationRow)
    → (joined (some c) t t').0 ≡ ok p
    → (o : OrganizationRow) × (select_first (owns c) t'.organizations ≡ some o) × (p ≡ (c, o))
joined_row c t t' p h = elim (Option-cases (select_first (owns c) t'.organizations)) [
  | inl missing ↦ absurd (unjoined c t t' p missing h)
  | inr (o, there) ↦ (o, there, joined_as c o t t' p there h)
]

joined_ok :
    (found : Option CustomerRow) (t t' : Tables) (p : CustomerRow × OrganizationRow)
    → (joined found t t').0 ≡ ok p
    → (c : CustomerRow) × (o : OrganizationRow) × (found ≡ some c)
      × (select_first (owns c) t'.organizations ≡ some o)
      × (p ≡ (c, o))
joined_ok none t t' p h = cc
joined_ok (some c) t t' p h =
    let (o, there, both) = joined_row c t t' p h in (c, o, refl, there, both)

-- A stored, live customer of the organization, beside its organization.
pub record IsFound (db : Db) (organization_id customer_id : Text) (c : Customer) : Type 0 where
  pub key : Text
  pub organization_read : db.server.parse_uuid (trim_space organization_id) ≡ some key
  pub id : Text
  pub customer_read : db.server.parse_uuid (trim_space customer_id) ≡ some id
  pub row : CustomerRow
  pub owner : OrganizationRow
  pub shown : c ≡ scan_customer (row, owner)
  pub stored : Memᴰ row db.tables.customers
  pub mine : row.organization_id ≡ key
  pub named : row.id ≡ id
  pub live : is_none row.deleted_at ≡ true
  pub owner_stored : Memᴰ owner db.tables.organizations
  pub owner_named : owner.id ≡ key

-- A customer that `GetByID` returns is a stored one of the organization that is asked for, with its key
-- and not deleted; and it comes with the row of that organization.
pub get_by_id-IsFound :
    (organization_id customer_id : Text) (db : Db) (c : Customer)
    → (get_by_id organization_id customer_id db).0 ≡ ok c
    → IsFound db organization_id customer_id c
unfolding get_by_id select_customer
get_by_id-IsFound organization_id customer_id db c h =
    let org = trim_space organization_id in
    let id = trim_space customer_id in
    let (p, told, shown, _) =
      finish_ok translate_row_error scan_customer (with_uuids org id select_customer) db c h in
    let (key, organization_read, inner) =
      with_uuid_ok (db.server.parse_uuid org) _ db.server db.step db.tables p told in
    let (k, customer_read, answer) =
      with_uuid_ok (db.server.parse_uuid id) (select_customer key) db.server db.step db.tables p
        inner in
    let (row, owner, found, there, both) =
      joined_ok (select_first (is_customer key k) db.tables.customers) db.tables db.tables p
        answer in
    let picked = select_first_sound (is_customer key k) db.tables.customers row found in
    let mine : row.organization_id ≡ key = (text_eq_iff row.organization_id key).0 (ground arith) in
    let belongs = select_first_sound (owns row) db.tables.organizations owner there in
    record {
      key = key;
      organization_read = organization_read;
      id = k;
      customer_read = customer_read;
      row = row;
      owner = owner;
      shown = shown ∙ ap scan_customer both;
      stored = select_first-mem (is_customer key k) db.tables.customers row found;
      mine = mine;
      named = (text_eq_iff row.id k).0 (ground arith);
      live = ground arith;
      owner_stored = select_first-mem (owns row) db.tables.organizations owner there;
      owner_named = (text_eq_iff owner.id row.organization_id).0 belongs ∙ mine;
    }
