-- ===== src/Customers/Tests.antt =====
-- Runs of the customers' repository, and the theorems about it at concrete inputs.
use tecora_be.Prelude.{◌≡◌, refl, true, [], ◌∷◌, none, some}
use tecora_be.Text.{codes, text_eq, trim_space}
use tecora_be.Db.{CustomerRow, Db, ok}
use tecora_be.Db.Nullable.{unset, of_text}
use tecora_be.Db.Table.{select_first}
use tecora_be.Db.Builder.{Builder}
use tecora_be.Customers.Model.{Customer, CreateInput, UpdateInput, scan_customer}
use tecora_be.Customers.Repository
use tecora_be.Customers.Repository.{Column, build, change_customer, join_organization}
use tecora_be.Customers.Repository.Change.{wanted, change_customer-build}
use tecora_be.Customers.Repository.Created.{ReadsOwnKey, create-get_by_id}
use tecora_be.Customers.Repository.Tenant.{Call, perform, Leaves, perform-OwnOnly}
use tecora_be.Samples.{server, db, alpha}

abbrev acme : CreateInput
acme = record {
  organization_id = codes " o1";
  name = codes "Acme Co ";
  email = some (codes "ops@acme.test");
  phone = none;
  address = none;
  notes = none;
}

abbrev acme_row : CustomerRow
acme_row = record {
  id = server.gen_random_uuid 0;
  organization_id = codes "o1";
  name = codes "Acme Co";
  email = some (codes "ops@acme.test");
  phone = none;
  address = none;
  notes = none;
  created_at = 100;
  updated_at = 100;
  deleted_at = none;
}

abbrev acme_customer : Customer
unfolding scan_customer
acme_customer = scan_customer (acme_row, alpha)

creates : (Repository.create acme db).0 ≡ ok acme_customer
unfolding Repository.create select_first text_eq scan_customer
creates = refl

own : ReadsOwnKey db
unfolding trim_space
own = refl

create-get_by_id_example :
    (Repository.get_by_id acme.organization_id acme_customer.id (Repository.create acme db).1).0
    ≡ ok acme_customer
unfolding Repository.create
create-get_by_id_example = create-get_by_id acme db acme_customer own creates refl

-- The database with the customer.
abbrev later : Db
later = record db { step = 1; tables = record db.tables { customers = acme_row ∷ [] } }

reads : (Repository.get_by_id (codes "o1") acme_row.id later).0 ≡ ok acme_customer
unfolding Repository.get_by_id select_first text_eq scan_customer
reads = refl

abbrev change : UpdateInput
change = record {
  name = unset;
  email = unset;
  phone = of_text (codes " 555 ");
  address = record unset { set = true; null = true };
  notes = unset;
}

abbrev changing : Builder Column
changing = record {
  clauses = (Column.phone, 3) ∷ (Column.address, 4) ∷ [];
  args = some (codes "o1") ∷ some acme_row.id ∷ some (codes "555") ∷ none ∷ [];
  arg_pos = 5;
}

builds : build (codes "o1") acme_row.id change ≡ some changing
unfolding build
builds = refl

change_customer-build_example :
    change_customer changing server 7 acme_row ≡ wanted change server 7 acme_row
change_customer-build_example =
    change_customer-build (codes "o1") acme_row.id change changing server 7 acme_row builds

perform-OwnOnly_example :
    Leaves (codes "o2") later (perform (codes "o2") (Call.delete acme_row.id) later)
perform-OwnOnly_example = perform-OwnOnly (codes "o2") later (Call.delete acme_row.id)
