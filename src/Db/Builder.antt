-- ===== src/Db/Builder.antt =====
-- The dynamic `UPDATE … SET column = $k` of the Update methods: the closure `addClause` with the
-- three variables that it captures, and what the server makes of the numbered parameters.
use tecora_be.Prelude.{
  ℕ, zero, suc, ◌+◌, ◌-◌, ◌≤◌, ◌<◌, ◌≡◌, refl, List, [], ◌∷◌, ◌++◌, Option, none, some, arith,
  length, get_elem?, length-append, All, All-append, if◌then◌else◌, ap, ◌∙◌, Bool-cases, inl, inr,
}
use tecora_be.Text.{Text}
use tecora_be.Db.Nullable.{NullableString, trimmed}

-- An argument is a text or `nil`; `C` is the columns.
pub record Builder (C : Type 0) : Type 0 where
  pub clauses : List (C × ℕ)
  pub args : List (Option Text)
  pub arg_pos : ℕ

-- The argument that `$k` names; parameters are numbered from 1.
abbrev pub flat : Option (Option Text) → Option Text
flat none = none
flat (some v) = v

abbrev pub argument : List (Option Text) → ℕ → Option Text
argument args k = flat (get_elem? args (k - 1))

module _ {C : Type 0} where
  unfoldable pub add_clause : C → Option Text → Builder C → Builder C
  add_clause column value b = record {
    clauses = b.clauses ++ (column, b.arg_pos) ∷ [];
    args = b.args ++ value ∷ [];
    arg_pos = b.arg_pos + 1;
  }

  -- The `if input.X.Set { if input.X.Null { … } else { … } }` of a nullable column.
  unfoldable pub add_nullable : C → NullableString → Builder C → Builder C
  unfolding trimmed
  add_nullable column field b =
      if field.set
      then (if field.null
          then add_clause column none b
          else add_clause column (some (trimmed field)) b)
      else b

  -- Every clause names an argument, and the next one is numbered next.
  pub record IsNumbered (b : Builder C) : Type 0 where
    pub next : b.arg_pos ≡ length b.args + 1
    pub in_range : All (λ c. (1 ≤ c.1) × (c.1 ≤ length b.args)) b.clauses

module _ {C R : Type 0} (assign : C → Option Text → R → R) where
  -- SET: the assignments from the left
  unfoldable pub set_columns : List (Option Text) → List (C × ℕ) → R → R
  set_columns args [] r = r
  set_columns args ((column, k) ∷ clauses) r =
      set_columns args clauses (assign column (argument args k) r)

  abbrev pub run : Builder C → R → R
  run b r = set_columns b.args b.clauses r

get_elem?-append {ℓ} :
    {A : Type ℓ} (xs ys : List A) (i : ℕ) → i < length xs → get_elem? (xs ++ ys) i ≡ get_elem? xs i
get_elem?-append [] ys i h = elim h [ ]
get_elem?-append (x ∷ xs) ys zero h = refl
get_elem?-append (x ∷ xs) ys (suc i) h = get_elem?-append xs ys i (omega arith)

get_elem?-last {ℓ} :
    {A : Type ℓ} (xs : List A) (x : A) → get_elem? (xs ++ x ∷ []) (length xs) ≡ some x
get_elem?-last [] x = refl
get_elem?-last (y ∷ xs) x = get_elem?-last xs x

argument-last :
    (args : List (Option Text)) (v : Option Text) (k : ℕ)
    → k ≡ length args + 1
    → argument (args ++ v ∷ []) k ≡ v
argument-last args v k e =
    let same : k - 1 ≡ length args = omega arith in
    ap (λ i. flat (get_elem? (args ++ v ∷ []) i)) same ∙ ap flat (get_elem?-last args v)

argument-append :
    (args : List (Option Text)) (v : Option Text) (k : ℕ)
    → 1 ≤ k
    → k ≤ length args
    → argument (args ++ v ∷ []) k ≡ argument args k
argument-append args v k one le = ap flat (get_elem?-append args (v ∷ []) (k - 1) (omega arith))

module _ {C R : Type 0} (assign : C → Option Text → R → R) where
  set_columns-append :
      (args : List (Option Text)) (v : Option Text) (clauses : List (C × ℕ)) (column : C) (k : ℕ)
      (r : R)
      → All (λ c. (1 ≤ c.1) × (c.1 ≤ length args)) clauses
      → k ≡ length args + 1
      → set_columns assign (args ++ v ∷ []) (clauses ++ (column, k) ∷ []) r
        ≡ assign column v (set_columns assign args clauses r)
  unfolding set_columns
  set_columns-append args v [] column k r h e =
      ap (λ a. assign column a r) (argument-last args v k e)
  set_columns-append args v ((c, j) ∷ clauses) column k r h e =
      ap (λ a. set_columns assign (args ++ v ∷ []) (clauses ++ (column, k) ∷ []) (assign c a r))
        (argument-append args v j h.0.0 h.0.1)
      ∙ set_columns-append args v clauses column k (assign c (argument args j) r) h.1 e

  -- A clause assigns the value that it was added with.
  pub run-add_clause :
      (b : Builder C) (column : C) (v : Option Text) (r : R)
      → IsNumbered b
      → run assign (add_clause column v b) r ≡ assign column v (run assign b r)
  unfolding add_clause
  run-add_clause b column v r w =
      set_columns-append b.args v b.clauses column b.arg_pos r w.in_range w.next

widen :
    {C : Type 0} (n m : ℕ) (clauses : List (C × ℕ))
    → n ≤ m
    → All (λ c. (1 ≤ c.1) × (c.1 ≤ n)) clauses
    → All (λ c. (1 ≤ c.1) × (c.1 ≤ m)) clauses
widen n m [] le h = tt
widen n m (c ∷ clauses) le h = ((h.0.0, omega arith), widen n m clauses le h.1)

module _ {C : Type 0} (column : C) (b : Builder C) (w : IsNumbered b) where
  pub add_clause-IsNumbered : (v : Option Text) → IsNumbered (add_clause column v b)
  unfolding add_clause
  add_clause-IsNumbered v = record {
    next = omega (arith, length-append {0} b.args (v ∷ []), w.next);
    in_range =
        All-append _ b.clauses ((column, b.arg_pos) ∷ [])
          (widen (length b.args) (length (b.args ++ v ∷ [])) b.clauses
            (omega (arith, length-append {0} b.args (v ∷ []))) w.in_range)
          ((omega (arith, w.next), omega (arith, w.next, length-append {0} b.args (v ∷ []))), tt);
  }

  pub add_nullable-IsNumbered : (f : NullableString) → IsNumbered (add_nullable column f b)
  unfolding add_nullable
  add_nullable-IsNumbered f = elim (Bool-cases f.set) [
    | inr unset ↦ rw unset w
    | inl set ↦ elim (Bool-cases f.null) [
      | inl null ↦ rw (set, null) (add_clause-IsNumbered none)
      | inr given ↦ rw (set, given) (add_clause-IsNumbered (some (trimmed f)))
    ]
  ]

-- What a nullable field that is set assigns.
abbrev pub given_value : NullableString → Option Text
given_value f = if f.null then none else some (trimmed f)

module _ {C R : Type 0} (assign : C → Option Text → R → R) where
  pub run-add_nullable :
      (column : C) (f : NullableString) (b : Builder C) (r : R)
      → IsNumbered b
      → run assign (add_nullable column f b) r
        ≡ (if f.set then assign column (given_value f) (run assign b r) else run assign b r)
  unfolding add_nullable
  run-add_nullable column f b r w = elim (Bool-cases f.set) [
    | inr unset ↦ rw unset
    | inl set ↦ elim (Bool-cases f.null) [
      | inl null ↦ rw (set, null) (run-add_clause assign b column none r w)
      | inr given ↦ rw (set, given) (run-add_clause assign b column (some (trimmed f)) r w)
    ]
  ]
