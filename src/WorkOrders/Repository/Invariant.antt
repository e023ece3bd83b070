-- ===== src/WorkOrders/Repository/Invariant.antt =====
-- What the table of work orders satisfies at all times: unique keys, one live row for a work order of
-- an organization, and organizations that exist.
use tecora_be.Prelude.{
  ℕ, ◌≡◌, refl, true, false, ◌||◌, List, [], ◌∷◌, ◌++◌, arith, any, All, All-append, Bool-cases,
  inl, inr,
}
use tecora_be.Text.{Text, text_eq}
use tecora_be.Text.Trim.{text_eq_iff}
use tecora_be.Db.{WorkOrderRow, Server, Tables, Db, query_keeps}
use tecora_be.Db.Uuid.{with_uuid_keeps}
use tecora_be.Db.Keyed.{IsUnique, append-IsUnique, any-append}
use tecora_be.WorkOrders.Model.{CreateInput}
use tecora_be.WorkOrders.Repository.{
  is_live, is_order, is_refused, trim_input, new_work_order, insert_work_order, insert, create,
}

-- No row after a live one is a live row for the same work order.
abbrev pub IsOneLive : List WorkOrderRow → Type 0
IsOneLive [] = Unit
IsOneLive (w ∷ rows) =
    (is_live w ≡ true → any (is_order w.organization_id w.work_order_id) rows ≡ false)
    × IsOneLive rows

abbrev pub IsOwned : Tables → WorkOrderRow → Type 0
IsOwned t w = any (λ o. text_eq o.id w.organization_id) t.organizations ≡ true

pub record IsValid (t : Tables) : Type 0 where
  pub ids : IsUnique (λ w. w.id) t.work_orders
  pub orders : IsOneLive t.work_orders
  pub owned : All (IsOwned t) t.work_orders

append-IsOneLive :
    (rows : List WorkOrderRow) (x : WorkOrderRow)
    → any (is_order x.organization_id x.work_order_id) rows ≡ false
    → IsOneLive rows
    → IsOneLive (rows ++ x ∷ [])
append-IsOneLive [] x new u = (λ _. refl, tt)
append-IsOneLive (w ∷ rows) x new u = (
  λ live.
      let old = u.0 live in
      ground (
        arith,
        any-append (is_order w.organization_id w.work_order_id) rows x,
        text_eq_iff x.organization_id w.organization_id,
        text_eq_iff w.organization_id x.organization_id,
        text_eq_iff x.work_order_id w.work_order_id,
        text_eq_iff w.work_order_id x.work_order_id,
      ),
  append-IsOneLive rows x (ground arith) u.1,
)

module _ (sv : Server) (n : ℕ) (t : Tables) (v : IsValid t) where
  insert_work_order-IsValid :
      (input : CreateInput) (org : Text) → IsValid (insert_work_order input org sv n t).1
  unfolding insert_work_order
  insert_work_order-IsValid input org =
      let row = new_work_order input org sv n in
      elim (Bool-cases (
        any (λ w. text_eq w.id row.id) t.work_orders
        || any (is_order org row.work_order_id) t.work_orders)) [
          | inl taken ↦ rw taken v
          | inr free ↦ elim (Bool-cases (any (λ o. text_eq o.id org) t.organizations)) [
            | inr missing ↦ rw (free, missing) v
            | inl there ↦
                rw (free, there)
                  (record {
                    ids =
                        append-IsUnique (λ (w : WorkOrderRow). w.id) t.work_orders row
                          (ground arith) v.ids;
                    orders =
                        append-IsOneLive t.work_orders row (unfold new_work_order in (ground arith))
                          v.orders;
                    owned =
                        All-append (IsOwned t) t.work_orders (row ∷ []) v.owned
                          (unfold new_work_order in (there, tt));
                  })
          ]
        ]

-- `Create` keeps one live row for a work order of an organization, unique keys and organizations that
-- exist, whatever becomes of the statement.
pub create-IsValid :
    (input : CreateInput) (db : Db) → IsValid db.tables → IsValid (create input db).1.tables
unfolding create insert
create-IsValid input db v = elim (Bool-cases (is_refused (trim_input input))) [
  | inl refused ↦ rw refused v
  | inr accepted ↦ rw accepted (
      query_keeps IsValid (insert (trim_input input)) db v (
        with_uuid_keeps IsValid (db.server.parse_uuid (trim_input input).organization_id)
          (insert_work_order (trim_input input)) db.server db.step db.tables v
          (λ org. insert_work_order-IsValid db.server db.step db.tables v (trim_input input) org)))
]
