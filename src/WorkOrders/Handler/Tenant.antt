-- ===== src/WorkOrders/Handler/Tenant.antt =====
-- Whose work orders the handlers of internal/workorders/handler.go show and make.
use mathlib.Core.List.{Memᴰ, Permᴰ}
use tecora_be.Prelude.{
  ℕ, ◌≡◌, sym, ap, ◌∙◌, inl, inr, true, List, some, arith, is_empty, Bool-cases, Option-cases,
}
use tecora_be.Text.{Text, trim_space}
use tecora_be.Text.Trim.{text_eq_iff, trim_space_idempotent}
use tecora_be.Http.{reply}
use tecora_be.Db.{WorkOrderRow, Error, Result, ok, err, Db}
use tecora_be.Db.Uuid.{with_uuid_ok}
use tecora_be.Db.Table.{select_all, select_first, select_first_sound, select_first-mem}
use tecora_be.Db.Order.{IsOrdered}
use tecora_be.Db.Answers.{finish_ok, returning_ok}
use tecora_be.Organizations.Model.{Organization, is_none}
use tecora_be.Gin.{Context}
use tecora_be.Users.Context.{current_organization}
use tecora_be.WorkOrders.Repository as WorkOrderRepository
use tecora_be.WorkOrders.Repository.{is_of, is_order, select_order, work_order_le}
use tecora_be.WorkOrders.Repository.Reading.{list_active_by_organization_id-Permᴰ}
use tecora_be.WorkOrders.Handler
use tecora_be.WorkOrders.Handler.{respond, write_error}

body_of_error : {A : Type 0} (e : Error) (v : A) (n : ℕ) → ¬ (write_error e ≡ reply n v)
unfolding write_error
body_of_error e v n k = ground arith

respond_inv :
    {A : Type 0} (status : ℕ) (r : Result A × Db) (v : A)
    → (respond status r).0 ≡ reply status v
    → r.0 ≡ ok v
respond_inv status (ok a, db) v h = ground arith
respond_inv status (err e, db) v h = absurd (body_of_error e v status h)

-- The caller's organization, and its key as the server reads it.
abbrev pub IsCaller : Context → Db → Text → Type 0
IsCaller c db key =
    (org : Organization) × (current_organization c ≡ some org)
    × (db.server.parse_uuid (trim_space org.id) ≡ some key)

-- If `List` answers 200, it shows exactly the work orders of the caller's organization that are not
-- deleted, in the order of the statement.
pub list-IsCaller :
    (c : Context) (db : Db) (ws : List WorkOrderRow)
    → (Handler.list c db).0 ≡ reply 200 ws
    → (key : Text) × IsCaller c db key
      × Permᴰ ws (select_all (is_of key) db.tables.work_orders)
      × IsOrdered work_order_le ws
unfolding Handler.list
list-IsCaller c db ws h = elim (Option-cases (current_organization c)) [
  | inl absent ↦ ground arith
  | inr (org, e) ↦
      let answer : (respond 200 (WorkOrderRepository.list_active_by_organization_id org.id db)).0
          ≡ reply 200 ws =
        ground arith in
      let told =
        respond_inv 200 (WorkOrderRepository.list_active_by_organization_id org.id db) ws answer in
      let (key, parsed, perm, order) = list_active_by_organization_id-Permᴰ org.id db ws told in
      (key, (org, e, parsed), perm, order)
]

-- A stored, live row of the organization for the work order that the path names.
pub record IsAsked (db : Db) (key param : Text) (w : WorkOrderRow) : Type 0 where
  pub stored : Memᴰ w db.tables.work_orders
  pub owner : w.organization_id ≡ key
  pub order : w.work_order_id ≡ trim_space param
  pub live : is_none w.deleted_at ≡ true

read-IsAsked :
    (organization_id param : Text) (db : Db) (w : WorkOrderRow)
    → (WorkOrderRepository.get_by_work_order_id organization_id (trim_space param) db).0 ≡ ok w
    → (key : Text) × (db.server.parse_uuid (trim_space organization_id) ≡ some key)
      × IsAsked db key param w
unfolding WorkOrderRepository.get_by_work_order_id select_order
read-IsAsked organization_id param db w h =
    let twice = trim_space (trim_space param) in
    let (x, told, same, _) =
      finish_ok _ (λ v. v) (select_order (trim_space organization_id) twice) db w h in
    let (key, parsed, rows) =
      with_uuid_ok (db.server.parse_uuid (trim_space organization_id)) _ db.server db.step db.tables
        w (told ∙ ap ok (sym same)) in
    let (r, found, is_it, _) =
      returning_ok (select_first (is_order key twice) db.tables.work_orders) (λ v. v) db.tables
        db.tables w rows in
    let here = found ∙ ap some (sym is_it) in
    let fits = select_first_sound (is_order key twice) db.tables.work_orders w here in
    (
      key,
      parsed,
      record {
        stored = select_first-mem (is_order key twice) db.tables.work_orders w here;
        owner = (text_eq_iff w.organization_id key).0 (ground arith);
        order = (text_eq_iff w.work_order_id twice).0 (ground arith) ∙ trim_space_idempotent param;
        live = ground arith;
      },
    )

-- If `Get` answers 200, it shows a stored work order that is not deleted, of the caller's organization
-- and with the id that the path gives.
pub get-IsAsked :
    (c : Context) (param : Text) (db : Db) (w : WorkOrderRow)
    → (Handler.get c param db).0 ≡ reply 200 w
    → (key : Text) × IsCaller c db key × IsAsked db key param w
unfolding Handler.get
get-IsAsked c param db w h = elim (Option-cases (current_organization c)) [
  | inl absent ↦ ground arith
  | inr (org, e) ↦ elim (Bool-cases (is_empty (trim_space param))) [
    | inl blank ↦ ground arith
    | inr given ↦
        let answer : (respond 200
              (WorkOrderRepository.get_by_work_order_id org.id (trim_space param) db)).0
            ≡ reply 200 w =
          ground arith in
        let told =
          respond_inv 200 (WorkOrderRepository.get_by_work_order_id org.id (trim_space param) db) w
            answer in
        let (key, parsed, asked) = read-IsAsked org.id param db w told in
        (key, (org, e, parsed), asked)
  ]
]
