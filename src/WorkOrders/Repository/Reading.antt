-- ===== src/WorkOrders/Repository/Reading.antt =====
-- What the methods of internal/workorders/repository.go read: the list of an organization, and a work
-- order after it has been created.
use mathlib.Core.List.{Permᴰ}
use tecora_be.Prelude.{
  ℕ, ◌≡◌, refl, sym, ap, ◌∙◌, ◌⊎◌, true, false, ◌||◌, List, [], ◌∷◌, ◌++◌, some, arith, any,
  Bool-cases, inl, inr,
}
use tecora_be.Text.{Text, text_eq, trim_space}
use tecora_be.Text.Trim.{text_eq_refl, text_eq_iff, text_le_total}
use tecora_be.Db.{Date, WorkOrderRow, Server, Tables, Db, query, finish, Result, ok, sound}
use tecora_be.Db.Uuid.{with_uuid, with_uuid_ok}
use tecora_be.Db.Table.{select_first, select_first-append, select_all, order_by}
use tecora_be.Db.Order.{order_by-Permᴰ, IsOrdered, order_by-IsOrdered}
use tecora_be.Db.Answers.{finish_ok, query_server}
use tecora_be.WorkOrders.Model.{CreateInput}
use tecora_be.WorkOrders.Repository.{
  is_of, is_order, is_refused, trim_input, new_work_order, insert_work_order, insert, create,
  date_lt, work_order_le, select_active, list_active_by_organization_id, select_order,
  get_by_work_order_id, translate_write_error,
}

date_lt_asym : (a b : Date) → date_lt a b ≡ true → date_lt b a ≡ false
unfolding date_lt
date_lt_asym a b h = ground arith

work_order_le_total : (v w : WorkOrderRow) → (work_order_le v w ≡ true) ⊎ (work_order_le w v ≡ true)
unfolding work_order_le
work_order_le_total v w = ground (
  arith,
  text_le_total v.id w.id,
  date_lt_asym v.job_date w.job_date,
  date_lt_asym w.job_date v.job_date,
)

-- The list that `ListActiveByOrganizationID` returns has exactly the rows of the organization that are
-- not deleted, ordered by date and time of creation, the latest first, and then by key.
pub list_active_by_organization_id-Permᴰ :
    (organization_id : Text) (db : Db) (ws : List WorkOrderRow)
    → (list_active_by_organization_id organization_id db).0 ≡ ok ws
    → (org : Text) × (db.server.parse_uuid (trim_space organization_id) ≡ some org)
      × Permᴰ ws (select_all (is_of org) db.tables.work_orders)
      × IsOrdered work_order_le ws
unfolding list_active_by_organization_id select_active
list_active_by_organization_id-Permᴰ organization_id db ws h =
    let (x, told, same, _) =
      finish_ok _ (λ w. w) (select_active (trim_space organization_id)) db ws h in
    let (org, parsed, rows) =
      with_uuid_ok (db.server.parse_uuid (trim_space organization_id)) _ db.server db.step db.tables
        x told in
    let mine = select_all (is_of org) db.tables.work_orders in
    let list : order_by work_order_le mine ≡ ws = ground (arith) in
    (
      org,
      parsed,
      rw (← list) (order_by-Permᴰ work_order_le mine),
      rw (← list) (order_by-IsOrdered work_order_le work_order_le_total mine),
    )

-- What an INSERT that succeeds has found and done.
insert_ok :
    (input : CreateInput) (org : Text) (sv : Server) (n : ℕ) (t : Tables) (w : WorkOrderRow)
    → (insert_work_order input org sv n t).0 ≡ ok w
    → (w ≡ new_work_order input org sv n)
      × (any (is_order org w.work_order_id) t.work_orders ≡ false)
      × ((insert_work_order input org sv n t).1.work_orders ≡ t.work_orders ++ w ∷ [])
unfolding insert_work_order
insert_ok input org sv n t w h =
    let row = new_work_order input org sv n in
    elim (Bool-cases (
      any (λ v. text_eq v.id row.id) t.work_orders
      || any (is_order org row.work_order_id) t.work_orders)) [
        | inl taken ↦ ground arith
        | inr free ↦ elim (Bool-cases (any (λ o. text_eq o.id org) t.organizations)) [
          | inr missing ↦ ground arith
          | inl there ↦
              let same : row ≡ w = ground arith in
              let new : any (is_order org row.work_order_id) t.work_orders ≡ false = ground arith in
              (sym same, rw (← same) new, rw (free, there, same) refl)
        ]
      ]

-- A lookup that is answered finds the row that has been appended.
found_last :
    (db : Db) (organization_id work_order_id org : Text) (rows : List WorkOrderRow)
    (w : WorkOrderRow)
    → db.server.fault db.step ≡ sound
    → db.server.parse_uuid (trim_space organization_id) ≡ some org
    → db.tables.work_orders ≡ rows ++ w ∷ []
    → any (is_order org (trim_space work_order_id)) rows ≡ false
    → is_order org (trim_space work_order_id) w ≡ true
    → (get_by_work_order_id organization_id work_order_id db).0 ≡ ok w
unfolding get_by_work_order_id select_order with_uuid
found_last db organization_id work_order_id org rows w answered parsed stored new fits =
    let p = is_order org (trim_space work_order_id) in
    let found : select_first p (rows ++ w ∷ []) ≡ some w =
      select_first-append p rows w new ∙ ground arith in
    rw (answered, parsed, stored, found) refl

abbrev sent : CreateInput → Db → Result WorkOrderRow × Db
sent input db = query (insert (trim_input input)) db

create_accepted :
    (input : CreateInput) (db : Db)
    → is_refused (trim_input input) ≡ false
    → create input db ≡ finish translate_write_error (λ w. w) (sent input db)
unfolding create
create_accepted input db h = rw h refl

create_refused :
    (input : CreateInput) (db : Db) (w : WorkOrderRow)
    → is_refused (trim_input input) ≡ true
    → ¬ ((create input db).0 ≡ ok w)
unfolding create
create_refused input db w h e = ground arith

written :
    (i : CreateInput) (org : Text) (sv : Server) (n : ℕ) {order : Text}
    → i.work_order_id ≡ order
    → (new_work_order i org sv n).work_order_id ≡ order
unfolding new_work_order
written i org sv n e = e

fits_new :
    (i : CreateInput) (org order : Text) (sv : Server) (n : ℕ)
    → i.work_order_id ≡ order
    → is_order org order (new_work_order i org sv n) ≡ true
unfolding new_work_order
fits_new i org order sv n e = ground (arith, text_eq_refl org, text_eq_iff i.work_order_id order)

-- The lookup after an INSERT that succeeded.
get-sent :
    (input : CreateInput) (db : Db) (w : WorkOrderRow)
    → (finish translate_write_error (λ v. v) (sent input db)).0 ≡ ok w
    → (sent input db).1.server.fault (sent input db).1.step ≡ sound
    → (get_by_work_order_id input.organization_id input.work_order_id (sent input db).1).0 ≡ ok w
unfolding insert with_uuid
get-sent input db w h answered =
    let i = trim_input input in
    let (x, told, same, tables) = finish_ok translate_write_error (λ v. v) (insert i) db w h in
    let (org, parsed, inserted) =
      with_uuid_ok (db.server.parse_uuid i.organization_id) (insert_work_order i) db.server db.step
        db.tables w (told ∙ ap ok (sym same)) in
    let (is_new, free, rows) = insert_ok i org db.server db.step db.tables w inserted in
    let order = trim_space input.work_order_id in
    let text : i.organization_id ≡ trim_space input.organization_id = unfold trim_input in refl in
    let named : w.work_order_id ≡ order =
      ap (λ (v : WorkOrderRow). v.work_order_id) is_new
      ∙ written i org db.server db.step {order = order} (unfold trim_input in refl) in
    let parse =
      ap (λ (s : Server). s.parse_uuid (trim_space input.organization_id))
        (query_server (insert i) db)
      ∙ ap db.server.parse_uuid (sym text)
      ∙ parsed in
    let wrote : (insert i db.server db.step db.tables).1.work_orders
        ≡ db.tables.work_orders ++ w ∷ [] =
      rw parsed rows in
    found_last (sent input db).1 input.organization_id input.work_order_id org db.tables.work_orders
      w answered parse (ap (λ (t : Tables). t.work_orders) tables ∙ wrote)
      (ap (λ k. any (is_order org k) db.tables.work_orders) (sym named) ∙ free)
      (rw is_new (fits_new i org order db.server db.step (unfold trim_input in refl)))

-- After `Create` has returned a work order, `GetByWorkOrderID` of the same texts, when it is answered,
-- returns that work order.
pub create-get_by_work_order_id :
    (input : CreateInput) (db : Db) (w : WorkOrderRow)
    → (create input db).0 ≡ ok w
    → (create input db).1.server.fault (create input db).1.step ≡ sound
    → (get_by_work_order_id input.organization_id input.work_order_id (create input db).1).0 ≡ ok w
create-get_by_work_order_id input db w h answered =
    elim (Bool-cases (is_refused (trim_input input))) [
      | inl refused ↦ absurd (create_refused input db w refused h)
      | inr accepted ↦
          let e = create_accepted input db accepted in
          let told = sym (ap (λ (r : Result WorkOrderRow × Db). r.0) e) ∙ h in
          let sends = ap (λ (r : Result WorkOrderRow × Db). r.1) e in
          let next = sym (ap (λ (d : Db). d.server.fault d.step) sends) ∙ answered in
          ap (λ (d : Db). (get_by_work_order_id input.organization_id input.work_order_id d).0)
            sends
          ∙ get-sent input db w told next
    ]
