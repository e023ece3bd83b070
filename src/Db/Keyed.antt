-- ===== src/Db/Keyed.antt =====
-- Tables with a UNIQUE text column.
use mathlib.Core.Option
use tecora_be.Prelude.{
  ◌≡◌, refl, ap, Bool, true, false, ◌&&◌, List, [], ◌∷◌, ◌++◌, none, some, arith, any,
  if◌then◌else◌, Bool-cases, inl, inr,
}
use tecora_be.Text.{Text, text_eq}
use tecora_be.Text.Trim.{text_eq_iff, text_eq_sound}
use tecora_be.Db.Table.{select_first, update_where}

module _ {R : Type 0} where
  abbrev patch : (R → Bool) → (R → R) → R → R
  patch p f r = if p r then f r else r

  -- A SELECT by a condition that an UPDATE does not touch finds the updated row.
  pub select_first-update_where :
      (q p : R → Bool) (f : R → R) (rows : List R)
      → ((r : R) → q (f r) ≡ q r)
      → select_first q (update_where p f rows) ≡ Option.map (patch p f) (select_first q rows)
  unfolding select_first update_where
  select_first-update_where q p f [] keep = refl
  select_first-update_where q p f (r ∷ rows) keep =
      ground (arith, keep r, select_first-update_where q p f rows keep)

  any-update_where :
      (q p : R → Bool) (f : R → R) (rows : List R)
      → ((r : R) → q (f r) ≡ q r)
      → any q (update_where p f rows) ≡ any q rows
  unfolding update_where
  any-update_where q p f [] keep = refl
  any-update_where q p f (r ∷ rows) keep = ground (arith, keep r, any-update_where q p f rows keep)

  pub any-append :
      (q : R → Bool) (rows : List R) (r : R)
      → any q (rows ++ r ∷ []) ≡ (if any q rows then true else q r)
  any-append q [] r = ground arith
  any-append q (x ∷ rows) r = ground (arith, any-append q rows r)

  pub select_first_of_any :
      (q : R → Bool) (rows : List R) → any q rows ≡ false → select_first q rows ≡ none
  unfolding select_first
  select_first_of_any q [] h = refl
  select_first_of_any q (r ∷ rows) h = ground (arith, select_first_of_any q rows)

  pub any_of_select_first :
      (q : R → Bool) (rows : List R) → select_first q rows ≡ none → any q rows ≡ false
  unfolding select_first
  any_of_select_first q [] h = refl
  any_of_select_first q (r ∷ rows) h = ground (arith, any_of_select_first q rows)

  pub any_of_some :
      (q : R → Bool) (rows : List R) (r : R) → select_first q rows ≡ some r → any q rows ≡ true
  unfolding select_first
  any_of_some q [] r h = cc
  any_of_some q (x ∷ rows) r h = ground (arith, any_of_some q rows r)

module _ {R : Type 0} (key : R → Text) where
  abbrev pub key_is : Text → R → Bool
  key_is k r = text_eq (key r) k

  -- No two rows have the same key.
  abbrev pub IsUnique : List R → Type 0
  IsUnique [] = Unit
  IsUnique (r ∷ rows) = (any (key_is (key r)) rows ≡ false) × IsUnique rows

  pub update_where-IsUnique :
      (p : R → Bool) (f : R → R) (rows : List R)
      → ((r : R) → key (f r) ≡ key r)
      → IsUnique rows
      → IsUnique (update_where p f rows)
  unfolding update_where
  update_where-IsUnique p f [] keep u = tt
  update_where-IsUnique p f (r ∷ rows) keep u =
      let same : key (patch p f r) ≡ key r = ground (arith, keep r) in
      let q = key_is (key r) in
      (
        rw (same, any-update_where q p f rows (λ x. ap (λ k. text_eq k (key r)) (keep x))) u.0,
        update_where-IsUnique p f rows keep u.1,
      )

  pub append-IsUnique :
      (rows : List R) (r : R)
      → any (key_is (key r)) rows ≡ false
      → IsUnique rows
      → IsUnique (rows ++ r ∷ [])
  append-IsUnique [] r new u = (refl, tt)
  append-IsUnique (x ∷ rows) r new u = (
    ground (
      arith,
      any-append (key_is (key x)) rows r,
      text_eq_iff (key x) (key r),
      text_eq_iff (key r) (key x),
    ),
    append-IsUnique rows r (ground arith) u.1,
  )

  -- Under a unique key, a condition beside the key only decides whether the row is returned.
  pub select_first-and :
      (k : Text) (live : R → Bool) (rows : List R)
      → IsUnique rows
      → select_first (λ r. key_is k r && live r) rows ≡ (elim (select_first (key_is k) rows) [
        | none ↦ none
        | some r ↦ if live r then some r else none
      ])
  unfolding select_first
  select_first-and k live [] u = refl
  select_first-and k live (r ∷ rows) u = elim (Bool-cases (key_is k r)) [
    | inl here ↦
        let only : any (λ x. text_eq (key x) k) rows ≡ false =
          rw (← text_eq_sound (key r) k here) u.0 in
        let rest = select_first-and k live rows u.1 in
        let absent = select_first_of_any (key_is k) rows only in ground (arith)
    | inr away ↦ ground (arith, select_first-and k live rows u.1)
  ]

  -- A SELECT by key after an INSERT of a new key.
  pub select_first-append_new :
      (rows : List R) (r : R) (k : Text)
      → any (key_is (key r)) rows ≡ false
      → select_first (key_is k) (rows ++ r ∷ [])
        ≡ (if text_eq (key r) k then some r else select_first (key_is k) rows)
  unfolding select_first
  select_first-append_new [] r k new = refl
  select_first-append_new (x ∷ rows) r k new = ground (
    arith,
    text_eq_iff (key x) (key r),
    text_eq_iff (key x) k,
    text_eq_iff (key r) k,
    select_first-append_new rows r k,
  )

  -- A SELECT by key after an UPDATE by key that keeps the keys.
  pub select_first-update_key :
      (f : R → R) (rows : List R) (j k : Text)
      → ((r : R) → key (f r) ≡ key r)
      → select_first (key_is k) (update_where (key_is j) f rows) ≡ (
          if text_eq j k
          then Option.map f (select_first (key_is k) rows)
          else select_first (key_is k) rows)
  unfolding select_first update_where
  select_first-update_key f [] j k keep = ground arith
  select_first-update_key f (r ∷ rows) j k keep = ground (
    arith,
    keep r,
    text_eq_iff (key r) j,
    text_eq_iff (key r) k,
    text_eq_iff j k,
    select_first-update_key f rows j k keep,
  )

  -- The same where the UPDATE also asks for another condition.
  pub select_first-update_and :
      (f : R → R) (live : R → Bool) (rows : List R) (j k : Text)
      → ((r : R) → key (f r) ≡ key r)
      → select_first (key_is k) (update_where (λ r. key_is j r && live r) f rows) ≡ (
          if text_eq j k
          then Option.map (λ r. if live r then f r else r) (select_first (key_is k) rows)
          else select_first (key_is k) rows)
  unfolding select_first update_where
  select_first-update_and f live [] j k keep = ground arith
  select_first-update_and f live (r ∷ rows) j k keep = ground (
    arith,
    keep r,
    text_eq_iff (key r) j,
    text_eq_iff (key r) k,
    text_eq_iff j k,
    select_first-update_and f live rows j k keep,
  )
