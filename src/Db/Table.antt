-- ===== src/Db/Table.antt =====
-- SELECT, UPDATE and INSERT on a table, which is the list of its rows in the order of insertion.
use mathlib.Core.List.{Memᴰ}
use tecora_be.Prelude.{
  ◌≡◌, refl, Bool, true, false, List, [], ◌∷◌, ◌++◌, Option, none, some, arith, any, All,
  if◌then◌else◌, Bool-cases, inl, inr,
}

module _ {R : Type 0} where
  -- SELECT … WHERE p: the first row, as `QueryRow` reads it
  unfoldable pub select_first : (R → Bool) → List R → Option R
  select_first p [] = none
  select_first p (r ∷ rows) = if p r then some r else select_first p rows

  -- SELECT … WHERE p
  unfoldable pub select_all : (R → Bool) → List R → List R
  select_all p [] = []
  select_all p (r ∷ rows) = let rest = select_all p rows in if p r then r ∷ rest else rest

  -- UPDATE … SET f WHERE p: the table after it
  unfoldable pub update_where : (R → Bool) → (R → R) → List R → List R
  update_where p f [] = []
  update_where p f (r ∷ rows) = (if p r then f r else r) ∷ update_where p f rows

  -- ORDER BY: insertion before the first row that is not smaller
  unfoldable pub insert_by : (R → R → Bool) → R → List R → List R
  insert_by le r [] = r ∷ []
  insert_by le r (x ∷ rows) = if le r x then r ∷ x ∷ rows else x ∷ insert_by le r rows

  unfoldable pub order_by : (R → R → Bool) → List R → List R
  unfolding insert_by
  order_by le [] = []
  order_by le (r ∷ rows) = insert_by le r (order_by le rows)

  pub select_first-append :
      (p : R → Bool) (rows : List R) (r : R)
      → any p rows ≡ false
      → select_first p (rows ++ r ∷ []) ≡ (if p r then some r else none)
  unfolding select_first
  select_first-append p [] r h = refl
  select_first-append p (x ∷ rows) r h = ground (arith, select_first-append p rows r)

  pub select_first-append_of_some :
      (p : R → Bool) (rows : List R) (r x : R)
      → select_first p rows ≡ some x
      → select_first p (rows ++ r ∷ []) ≡ some x
  unfolding select_first
  select_first-append_of_some p [] r x h = cc
  select_first-append_of_some p (y ∷ rows) r x h =
      ground (arith, select_first-append_of_some p rows r x)

  -- The row that a SELECT returns passes its WHERE.
  pub select_first_sound :
      (p : R → Bool) (rows : List R) (r : R) → select_first p rows ≡ some r → p r ≡ true
  unfolding select_first
  select_first_sound p [] r h = cc
  select_first_sound p (x ∷ rows) r h = ground (arith, select_first_sound p rows r)

  -- What holds of every row holds of the row that a SELECT returns.
  pub select_first-All {κ} :
      (P : R → Type κ) (p : R → Bool) (rows : List R) (r : R)
      → All P rows
      → select_first p rows ≡ some r
      → P r
  unfolding select_first
  select_first-All P p [] r a h = cc
  select_first-All P p (x ∷ rows) r a h = elim (Bool-cases (p x)) [
    | inl e ↦ let same : x ≡ r = ground arith in rw (← same) (a.0)
    | inr e ↦ select_first-All P p rows r a.1 (ground arith)
  ]

  -- An UPDATE that keeps a property of every row keeps it for the table.
  pub update_where-All {κ} :
      (P : R → Type κ) (p : R → Bool) (f : R → R) (rows : List R)
      → ((r : R) → p r ≡ true → P r → P (f r))
      → All P rows
      → All P (update_where p f rows)
  unfolding update_where
  update_where-All P p f [] keep a = tt
  update_where-All P p f (r ∷ rows) keep a = elim (Bool-cases (p r)) [
    | inl e ↦ rw e (keep r e a.0, update_where-All P p f rows keep a.1)
    | inr e ↦ rw e (a.0, update_where-All P p f rows keep a.1)
  ]

  pub update_where-none :
      (p : R → Bool) (f : R → R) (rows : List R)
      → select_first p rows ≡ none
      → update_where p f rows ≡ rows
  unfolding select_first update_where
  update_where-none p f [] h = refl
  update_where-none p f (r ∷ rows) h = ground (arith, update_where-none p f rows)

  -- The row that a SELECT returns is one of the table.
  pub select_first-mem :
      (p : R → Bool) (rows : List R) (r : R) → select_first p rows ≡ some r → Memᴰ r rows
  unfolding select_first
  select_first-mem p [] r h = cc
  select_first-mem p (x ∷ rows) r h = elim (Bool-cases (p x)) [
    | inl e ↦ Memᴰ.head (ground arith)
    | inr e ↦ Memᴰ.tail (select_first-mem p rows r (ground arith))
  ]

  -- An UPDATE of rows that a SELECT leaves out, before it and after it.
  pub select_all-update_where :
      (q p : R → Bool) (f : R → R) (rows : List R)
      → ((r : R) → p r ≡ true → (q r ≡ false) × (q (f r) ≡ false))
      → select_all q (update_where p f rows) ≡ select_all q rows
  unfolding select_all update_where
  select_all-update_where q p f [] apart = refl
  select_all-update_where q p f (r ∷ rows) apart = elim (Bool-cases (p r)) [
    | inl chosen ↦
        let sides = apart r chosen in ground (arith, select_all-update_where q p f rows apart)
    | inr left ↦ ground (arith, select_all-update_where q p f rows apart)
  ]

  pub select_all-append :
      (q : R → Bool) (rows : List R) (r : R)
      → q r ≡ false
      → select_all q (rows ++ r ∷ []) ≡ select_all q rows
  unfolding select_all
  select_all-append q [] r h = ground arith
  select_all-append q (x ∷ rows) r h = ground (arith, select_all-append q rows r h)
