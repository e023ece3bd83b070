-- ===== src/Db/Order.antt =====
-- ORDER BY: the rows that go in come out, and in order.
use mathlib.Core.List.{Permᴰ}
use mathlib.Core.List.Permᴰ as Permᴰ
use tecora_be.Prelude.{◌≡◌, refl, ◌⊎◌, Bool, true, List, [], ◌∷◌, arith, Bool-cases, inl, inr}
use tecora_be.Db.Table.{insert_by, order_by}

module _ {R : Type 0} (le : R → R → Bool) where
  insert_by-Permᴰ : (r : R) (rows : List R) → Permᴰ (insert_by le r rows) (r ∷ rows)
  unfolding insert_by
  insert_by-Permᴰ r [] = Permᴰ.refl (r ∷ [])
  insert_by-Permᴰ r (x ∷ rows) = elim (Bool-cases (le r x)) [
    | inl before ↦ rw before (Permᴰ.refl (r ∷ x ∷ rows))
    | inr after ↦
        rw after (Permᴰ.trans (Permᴰ.cons refl (insert_by-Permᴰ r rows)) (Permᴰ.swap refl refl))
  ]

  -- The ordered rows are the rows, each as often as before.
  pub order_by-Permᴰ : (rows : List R) → Permᴰ (order_by le rows) rows
  unfolding order_by
  order_by-Permᴰ [] = Permᴰ.nil
  order_by-Permᴰ (r ∷ rows) =
      Permᴰ.trans (insert_by-Permᴰ r (order_by le rows)) (Permᴰ.cons refl (order_by-Permᴰ rows))

  -- Each row may stand before the next.
  abbrev IsBefore : R → List R → Type 0
  IsBefore r [] = Unit
  IsBefore r (x ∷ _) = le r x ≡ true

  abbrev pub IsOrdered : List R → Type 0
  IsOrdered [] = Unit
  IsOrdered (r ∷ rows) = IsBefore r rows × IsOrdered rows

  module _ (total : (r x : R) → (le r x ≡ true) ⊎ (le x r ≡ true)) where
    IsBefore-insert :
        (y r : R) (rows : List R)
        → le y r ≡ true
        → IsBefore y rows
        → IsBefore y (insert_by le r rows)
    unfolding insert_by
    IsBefore-insert y r [] h b = h
    IsBefore-insert y r (x ∷ rows) h b = elim (Bool-cases (le r x)) [
      | inl before ↦ rw before h
      | inr after ↦ rw after b
    ]

    insert_by-IsOrdered : (r : R) (rows : List R) → IsOrdered rows → IsOrdered (insert_by le r rows)
    unfolding insert_by
    insert_by-IsOrdered r [] o = (tt, tt)
    insert_by-IsOrdered r (x ∷ rows) o = elim (Bool-cases (le r x)) [
      | inl before ↦ rw before (before, o)
      | inr after ↦
          let turned : le x r ≡ true = ground (arith, total r x) in
          rw after (IsBefore-insert x r rows turned o.0, insert_by-IsOrdered r rows o.1)
    ]

    pub order_by-IsOrdered : (rows : List R) → IsOrdered (order_by le rows)
    unfolding order_by
    order_by-IsOrdered [] = tt
    order_by-IsOrdered (r ∷ rows) =
        insert_by-IsOrdered r (order_by le rows) (order_by-IsOrdered rows)
