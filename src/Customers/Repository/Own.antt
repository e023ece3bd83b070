-- ===== src/Customers/Repository/Own.antt =====
-- Whose customers the statements of internal/customers/repository.go write.
use tecora_be.Prelude.{
  ℕ, ◌≡◌, ◌≢◌, refl, true, Option, none, some, arith, any, Bool-cases, inl, inr,
}
use tecora_be.Text.{Text, text_eq}
use tecora_be.Text.Trim.{text_eq_iff}
use tecora_be.Db.{CustomerRow, Server, Tables, returning_keeps}
use tecora_be.Db.Table.{select_first, select_all, update_where}
use tecora_be.Db.Builder.{Builder}
use tecora_be.Customers.Model.{CreateInput}
use tecora_be.Customers.Repository.{
  Column, is_customer, joined, new_customer, insert_customer, change_customer, update_customer,
  mark_deleted, delete_customer,
}
use tecora_be.Db.Tenant.{select_all-own_row, select_all-own_change}

-- Only customers of one organization differ; `key` is what the server reads the organization as.
pub record OwnOnly (key : Option Text) (t t' : Tables) : Type 0 where
  pub organizations : t'.organizations ≡ t.organizations
  pub users : t'.users ≡ t.users
  pub acceptances : t'.acceptances ≡ t.acceptances
  pub work_orders : t'.work_orders ≡ t.work_orders
  pub others :
      (other : Text)
      → key ≢ some other
      → select_all (λ c. text_eq c.organization_id other) t'.customers
        ≡ select_all (λ c. text_eq c.organization_id other) t.customers

module _ (t : Tables) where
  pub unchanged : (key : Option Text) → OwnOnly key t t
  unchanged key = record {
    organizations = refl;
    users = refl;
    acceptances = refl;
    work_orders = refl;
    others = λ other apart. refl;
  }

  -- A row that the WHERE of a statement picks is of its organization.
  picked : (org id : Text) (c : CustomerRow) → is_customer org id c ≡ true → c.organization_id ≡ org
  picked org id c h = (text_eq_iff c.organization_id org).0 (ground arith)

  changed-OwnOnly :
      (org id : Text) (change : CustomerRow → CustomerRow)
      → ((c : CustomerRow) → (change c).organization_id ≡ c.organization_id)
      → OwnOnly
          (some org)
          t
          (record t { customers = update_where (is_customer org id) change t.customers })
  changed-OwnOnly org id change keep = record {
    organizations = refl;
    users = refl;
    acceptances = refl;
    work_orders = refl;
    others = λ other apart.
        select_all-own_change (λ (c : CustomerRow). c.organization_id) org other apart
          (is_customer org id) change t.customers (picked org id) keep;
  }

  -- The tables of a joined answer are the old ones or the new.
  pub joined-OwnOnly :
      (key : Option Text) (found : Option CustomerRow) (t' : Tables)
      → OwnOnly key t t'
      → OwnOnly key t (joined found t t').1
  joined-OwnOnly key none t' h = unchanged key
  joined-OwnOnly key (some c) t' h = h

  pub insert_customer-OwnOnly :
      (input : CreateInput) (name org : Text) (sv : Server) (n : ℕ)
      → OwnOnly (some org) t (insert_customer input name org sv n t).1
  unfolding insert_customer
  insert_customer-OwnOnly input name org sv n =
      let row = new_customer input org name sv n in
      elim (Bool-cases (any (λ c. text_eq c.id row.id) t.customers)) [
        | inl taken ↦ rw taken (unchanged (some org))
        | inr free ↦ elim (Bool-cases (any (λ o. text_eq o.id org) t.organizations)) [
          | inr missing ↦ rw (free, missing) (unchanged (some org))
          | inl there ↦
              rw (free, there)
                (record {
                  organizations = refl;
                  users = refl;
                  acceptances = refl;
                  work_orders = refl;
                  others = λ other apart.
                      select_all-own_row (λ (c : CustomerRow). c.organization_id) org other apart
                        t.customers row (unfold new_customer in refl);
                })
        ]
      ]

  pub update_customer-OwnOnly :
      (b : Builder Column) (org id : Text) (sv : Server) (n : ℕ)
      → ((c : CustomerRow) → (change_customer b sv n c).organization_id ≡ c.organization_id)
      → OwnOnly (some org) t (update_customer b org id sv n t).1
  unfolding update_customer
  update_customer-OwnOnly b org id sv n keep =
      joined-OwnOnly (some org) _ _ (changed-OwnOnly org id (change_customer b sv n) keep)

  pub delete_customer-OwnOnly :
      (org id : Text) (sv : Server) (n : ℕ) → OwnOnly (some org) t (delete_customer org id sv n t).1
  unfolding delete_customer mark_deleted
  delete_customer-OwnOnly org id sv n =
      returning_keeps (OwnOnly (some org) t) (select_first (is_customer org id) t.customers)
        (λ c. c.id) t _ (unchanged (some org))
        (changed-OwnOnly org id (mark_deleted (sv.now n)) (λ c. refl))
