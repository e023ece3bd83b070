-- ===== src/WorkOrders/Repository/Frame.antt =====
-- The methods of internal/workorders/repository.go leave the other tables alone.
use tecora_be.Prelude.{◌≡◌, refl, ◌||◌, any, Bool-cases, inl, inr}
use tecora_be.Text.{Text, text_eq, trim_space}
use tecora_be.Db.{Tables, Db, query_keeps, returning_keeps}
use tecora_be.Db.Uuid.{with_uuid_keeps}
use tecora_be.Db.Table.{select_first}
use tecora_be.Db.Frame.{WorkOrdersOnly}
use tecora_be.WorkOrders.Model.{CreateInput}
use tecora_be.WorkOrders.Repository.{
  is_order, is_refused, trim_input, new_work_order, insert_work_order, insert, create,
  select_active, list_active_by_organization_id, select_order, get_by_work_order_id,
}

module _ (db : Db) where
  abbrev IsNext : Tables → Type 0
  IsNext t = WorkOrdersOnly db.tables t

  unchanged : IsNext db.tables
  unchanged = record { organizations = refl; users = refl; acceptances = refl }

  insert-WorkOrdersOnly :
      (input : CreateInput) (org : Text)
      → IsNext (insert_work_order input org db.server db.step db.tables).1
  unfolding insert_work_order
  insert-WorkOrdersOnly input org =
      let t = db.tables in
      let row = new_work_order input org db.server db.step in
      elim (Bool-cases (
        any (λ w. text_eq w.id row.id) t.work_orders
        || any (is_order org row.work_order_id) t.work_orders)) [
          | inl taken ↦ rw taken unchanged
          | inr free ↦ elim (Bool-cases (any (λ o. text_eq o.id org) t.organizations)) [
            | inr missing ↦ rw (free, missing) unchanged
            | inl there ↦
                rw (free, there) (record { organizations = refl; users = refl; acceptances = refl })
          ]
        ]

  pub create-WorkOrdersOnly :
      (input : CreateInput) → WorkOrdersOnly db.tables (create input db).1.tables
  unfolding create insert
  create-WorkOrdersOnly input = elim (Bool-cases (is_refused (trim_input input))) [
    | inl refused ↦ rw refused unchanged
    | inr accepted ↦ rw accepted (
        query_keeps IsNext (insert (trim_input input)) db unchanged (
          with_uuid_keeps IsNext (db.server.parse_uuid (trim_input input).organization_id)
            (insert_work_order (trim_input input)) db.server db.step db.tables unchanged
            (λ org. insert-WorkOrdersOnly (trim_input input) org)))
  ]

  pub list_active-tables :
      (org : Text) → (list_active_by_organization_id org db).1.tables ≡ db.tables
  unfolding list_active_by_organization_id select_active
  list_active-tables org =
      query_keeps (λ t. t ≡ db.tables) (select_active (trim_space org)) db refl
        (with_uuid_keeps (λ t. t ≡ db.tables) (db.server.parse_uuid (trim_space org)) _ db.server
          db.step db.tables refl (λ _. refl))

  pub get_by_work_order_id-tables :
      (org id : Text) → (get_by_work_order_id org id db).1.tables ≡ db.tables
  unfolding get_by_work_order_id select_order
  get_by_work_order_id-tables org id =
      query_keeps (λ t. t ≡ db.tables) (select_order (trim_space org) (trim_space id)) db refl
        (with_uuid_keeps (λ t. t ≡ db.tables) (db.server.parse_uuid (trim_space org)) _ db.server
          db.step db.tables refl
          (λ o.
            returning_keeps (λ t. t ≡ db.tables)
              (select_first (is_order o (trim_space id)) db.tables.work_orders) (λ w. w) db.tables
              db.tables refl refl))
