-- ===== src/Db/Frame.antt =====
-- Which tables a call leaves as they are: it writes to one table at most, and no organization ever
-- disappears.
use tecora_be.Prelude.{◌≡◌, Bool, true, List, [], ◌∷◌, ◌++◌, arith, any, All}
use tecora_be.Text.{Text, text_eq}
use tecora_be.Db.{OrganizationRow, Tables}
use tecora_be.Db.Table.{update_where}

abbrev pub has_key : Text → List OrganizationRow → Bool
has_key id rows = any (λ o. text_eq o.id id) rows

abbrev pub Keeps : List OrganizationRow → List OrganizationRow → Type 0
Keeps rows rows' = (id : Text) → has_key id rows ≡ true → has_key id rows' ≡ true

pub record OrganizationsOnly (t t' : Tables) : Type 0 where
  pub organizations : Keeps t.organizations t'.organizations
  pub users : t'.users ≡ t.users
  pub customers : t'.customers ≡ t.customers
  pub acceptances : t'.acceptances ≡ t.acceptances
  pub work_orders : t'.work_orders ≡ t.work_orders

pub record UsersOnly (t t' : Tables) : Type 0 where
  pub organizations : t'.organizations ≡ t.organizations
  pub customers : t'.customers ≡ t.customers
  pub acceptances : t'.acceptances ≡ t.acceptances
  pub work_orders : t'.work_orders ≡ t.work_orders

pub record AcceptancesOnly (t t' : Tables) : Type 0 where
  pub organizations : t'.organizations ≡ t.organizations
  pub users : t'.users ≡ t.users
  pub work_orders : t'.work_orders ≡ t.work_orders

pub record WorkOrdersOnly (t t' : Tables) : Type 0 where
  pub organizations : t'.organizations ≡ t.organizations
  pub users : t'.users ≡ t.users
  pub acceptances : t'.acceptances ≡ t.acceptances

pub append-Keeps : (rows : List OrganizationRow) (o : OrganizationRow) → Keeps rows (rows ++ o ∷ [])
append-Keeps [] o id h = cc
append-Keeps (x ∷ rows) o id h = ground (arith, append-Keeps rows o id)

pub update_where-Keeps :
    (p : OrganizationRow → Bool) (f : OrganizationRow → OrganizationRow)
    (rows : List OrganizationRow)
    → ((o : OrganizationRow) → (f o).id ≡ o.id)
    → Keeps rows (update_where p f rows)
unfolding update_where
update_where-Keeps p f [] keep id h = cc
update_where-Keeps p f (x ∷ rows) keep id h =
    ground (arith, keep x, update_where-Keeps p f rows keep id)

-- What holds of every row for each organization that is there holds with more organizations.
pub All-map :
    {R : Type 0} (P Q : R → Type 0) (rows : List R)
    → ((r : R) → P r → Q r)
    → All P rows
    → All Q rows
All-map P Q [] f h = tt
All-map P Q (r ∷ rows) f h = (f r h.0, All-map P Q rows f h.1)
