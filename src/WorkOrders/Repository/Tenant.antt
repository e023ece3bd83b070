-- ===== src/WorkOrders/Repository/Tenant.antt =====
-- `Create` of internal/workorders/repository.go writes a work order of the organization that it is
-- given, and of no other.
use tecora_be.Prelude.{ℕ, refl, ◌||◌, any, Bool-cases, inl, inr, some}
use tecora_be.Text.{Text, text_eq, trim_space}
use tecora_be.Db.{WorkOrderRow, Server, Tables, Db, query_keeps}
use tecora_be.Db.Tenant.{OwnRows, OwnRows-refl, uuid-OwnRows, select_all-own_row}
use tecora_be.WorkOrders.Model.{CreateInput}
use tecora_be.WorkOrders.Repository.{
  is_order, is_refused, trim_input, new_work_order, insert_work_order, insert, create,
}

insert_work_order-OwnRows :
    (sv : Server) (n : ℕ) (t : Tables) (input : CreateInput) (org : Text)
    → OwnRows (some org) t (insert_work_order input org sv n t).1
unfolding insert_work_order
insert_work_order-OwnRows sv n t input org =
    let row = new_work_order input org sv n in
    elim (Bool-cases (
      any (λ w. text_eq w.id row.id) t.work_orders
      || any (is_order org row.work_order_id) t.work_orders)) [
        | inl taken ↦ rw taken (OwnRows-refl (some org) t)
        | inr free ↦ elim (Bool-cases (any (λ o. text_eq o.id org) t.organizations)) [
          | inr missing ↦ rw (free, missing) (OwnRows-refl (some org) t)
          | inl there ↦
              rw (free, there)
                (record {
                  organizations = refl;
                  users = refl;
                  customers = refl;
                  acceptances = λ other apart. refl;
                  work_orders = λ other apart.
                      select_all-own_row (λ (w : WorkOrderRow). w.organization_id) org other apart
                        t.work_orders row (unfold new_work_order in refl);
                })
        ]
      ]

pub create-OwnRows :
    (db : Db) (input : CreateInput)
    → OwnRows
        (db.server.parse_uuid (trim_space input.organization_id))
        db.tables
        (create input db).1.tables
unfolding create insert
create-OwnRows db input =
    let trimmed = trim_input input in
    let key = db.server.parse_uuid trimmed.organization_id in
    elim (Bool-cases (is_refused trimmed)) [
      | inl refused ↦ rw refused (unfold trim_input in OwnRows-refl key db.tables)
      | inr accepted ↦ rw accepted (
          unfold trim_input in
          query_keeps (OwnRows key db.tables) (insert trimmed) db (OwnRows-refl key db.tables) (
            uuid-OwnRows key (insert_work_order trimmed) db.server db.step db.tables
              (insert_work_order-OwnRows db.server db.step db.tables trimmed)))
    ]
