-- ===== src/Db/Tenant.antt =====
-- Calls that write rows of one organization only.
use tecora_be.Prelude.{
  ℕ, ◌≡◌, ◌≢◌, refl, ap, ◌∙◌, Bool, true, false, List, [], ◌∷◌, ◌++◌, Option, none, some,
  Bool-cases, inl, inr,
}
use tecora_be.Text.{Text, text_eq}
use tecora_be.Text.Trim.{text_eq_iff}
use tecora_be.Db.{AcceptanceRow, WorkOrderRow, Server, Tables, Statement}
use tecora_be.Db.Uuid.{with_uuid}
use tecora_be.Db.Table.{select_all, update_where, select_all-update_where, select_all-append}

abbrev pub acceptances_of : Text → Tables → List AcceptanceRow
acceptances_of org t = select_all (λ r. text_eq r.organization_id org) t.acceptances

abbrev pub work_orders_of : Text → Tables → List WorkOrderRow
work_orders_of org t = select_all (λ r. text_eq r.organization_id org) t.work_orders

-- Only acceptances and work orders of one organization differ; `key` is what the server reads the
-- organization as.
pub record OwnRows (key : Option Text) (t t' : Tables) : Type 0 where
  pub organizations : t'.organizations ≡ t.organizations
  pub users : t'.users ≡ t.users
  pub customers : t'.customers ≡ t.customers
  pub acceptances :
      (other : Text) → key ≢ some other → acceptances_of other t' ≡ acceptances_of other t
  pub work_orders :
      (other : Text) → key ≢ some other → work_orders_of other t' ≡ work_orders_of other t

pub OwnRows-refl : (key : Option Text) (t : Tables) → OwnRows key t t
OwnRows-refl key t = record {
  organizations = refl;
  users = refl;
  customers = refl;
  acceptances = λ other apart. refl;
  work_orders = λ other apart. refl;
}

pub OwnRows-eq : (key : Option Text) (t t' : Tables) → t' ≡ t → OwnRows key t t'
OwnRows-eq key t t' e = rw e (OwnRows-refl key t)

pub OwnRows-trans :
    (key : Option Text) (t t' t'' : Tables)
    → OwnRows key t t'
    → OwnRows key t' t''
    → OwnRows key t t''
OwnRows-trans key t t' t'' a b = record {
  organizations = b.organizations ∙ a.organizations;
  users = b.users ∙ a.users;
  customers = b.customers ∙ a.customers;
  acceptances = λ other apart. b.acceptances other apart ∙ a.acceptances other apart;
  work_orders = λ other apart. b.work_orders other apart ∙ a.work_orders other apart;
}

-- A row of this organization is not one of another.
pub text_eq-other : (key other : Text) → (some key ≢ some other) → text_eq key other ≡ false
text_eq-other key other apart = elim (Bool-cases (text_eq key other)) [
  | inl same ↦ absurd (apart (ap some ((text_eq_iff key other).0 same)))
  | inr differ ↦ differ
]

-- A new row, and a change of rows that are picked by their organization.
module _ {R : Type 0} (owner : R → Text) (key other : Text) (apart : some key ≢ some other) where
  pub select_all-own_row :
      (rows : List R) (r : R)
      → owner r ≡ key
      → select_all (λ x. text_eq (owner x) other) (rows ++ r ∷ [])
        ≡ select_all (λ x. text_eq (owner x) other) rows
  select_all-own_row rows r mine =
      select_all-append (λ x. text_eq (owner x) other) rows r
        (rw mine (text_eq-other key other apart))

  pub select_all-own_change :
      (p : R → Bool) (f : R → R) (rows : List R)
      → ((r : R) → p r ≡ true → owner r ≡ key)
      → ((r : R) → owner (f r) ≡ owner r)
      → select_all (λ x. text_eq (owner x) other) (update_where p f rows)
        ≡ select_all (λ x. text_eq (owner x) other) rows
  select_all-own_change p f rows picked kept =
      select_all-update_where (λ x. text_eq (owner x) other) p f rows
        (λ r chosen.
          let differ = text_eq-other key other apart in
          (rw (picked r chosen) differ, rw (kept r, picked r chosen) differ))

-- A statement that casts the organization to UUID.
pub uuid-OwnRows :
    {A : Type 0} (o : Option Text) (f : Text → Statement A) (sv : Server) (n : ℕ) (t : Tables)
    → ((k : Text) → OwnRows (some k) t (f k sv n t).1)
    → OwnRows o t (with_uuid o f sv n t).1
unfolding with_uuid
uuid-OwnRows none f sv n t h = OwnRows-refl none t
uuid-OwnRows (some k) f sv n t h = h k
