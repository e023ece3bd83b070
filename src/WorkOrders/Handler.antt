-- ===== src/WorkOrders/Handler.antt =====
-- internal/workorders/handler.go. The body of a request is its record, or `none` if it cannot be bound.
pub mod Tenant
use tecora_be.Prelude.{ℕ, List, Option, none, some, is_empty, if◌then◌else◌}
use tecora_be.Text.{Text, trim_space}
use tecora_be.Http.{Response, reply, reply_error}
use tecora_be.Db.{
  WorkOrderRow, Package, Error, not_found, conflict, invalid_input, Result, ok, err, Db,
}
use tecora_be.Gin.{Context}
use tecora_be.Users.Context.{current_organization}
use tecora_be.WorkOrders.Model.{CreateRequest, CreateInput, normalize_create_request}
use tecora_be.WorkOrders.Repository as WorkOrderRepository

unfoldable pub write_error : {A : Type 0} → Error → Response A
write_error (invalid_input Package.workorders) = reply_error 400 "invalid work order input"
write_error (conflict Package.workorders) = reply_error 409 "work order already exists"
write_error (not_found Package.workorders) = reply_error 404 "work order not found"
write_error _ = reply_error 500 "internal server error"

abbrev pub respond : {A : Type 0} → ℕ → Result A × Db → Response A × Db
respond status (ok a, db) = (reply status a, db)
respond status (err e, db) = (write_error e, db)

-- `Create` from the answer of `NormalizeCreateRequest` on
abbrev pub create_input : Text → Result CreateInput → Db → Response WorkOrderRow × Db
create_input org (err e) db = (write_error e, db)
create_input org (ok input) db =
    respond 201 (WorkOrderRepository.create (record input { organization_id = org }) db)

unfoldable pub create : Context → Option CreateRequest → Db → Response WorkOrderRow × Db
unfolding write_error
create c body db = elim (current_organization c) [
  | none ↦ (reply_error 401 "missing current organization", db)
  | some org ↦ elim body [
    | none ↦ (reply_error 400 "invalid json body", db)
    | some req ↦ create_input org.id (normalize_create_request req) db
  ]
]

unfoldable pub list : Context → Db → Response (List WorkOrderRow) × Db
unfolding write_error
list c db = elim (current_organization c) [
  | none ↦ (reply_error 401 "missing current organization", db)
  | some org ↦ respond 200 (WorkOrderRepository.list_active_by_organization_id org.id db)
]

unfoldable pub get : Context → Text → Db → Response WorkOrderRow × Db
unfolding write_error trim_space
get c param db = elim (current_organization c) [
  | none ↦ (reply_error 401 "missing current organization", db)
  | some org ↦
      let id = trim_space param in
      if is_empty id
      then (reply_error 400 "invalid work order id", db)
      else respond 200 (WorkOrderRepository.get_by_work_order_id org.id id db)
]
