-- ===== src/Db/Errors.antt =====
-- Go's error values. A sentinel carries the package that declares it, so that `errors.Is` is the
-- identity of the sentinel; wrapping by `fmt.Errorf` and `%w` keeps what `errors.Is` sees, and is
-- left out.
use tecora_be.Prelude.{◌≡◌, ◌⊎◌, refl, inl, inr}
use tecora_be.Text.{Text}

pub data Package : Type 0 where
  organizations users customers acceptances workorders : Package

-- `pgx.ErrNoRows`, a `*pgconn.PgError` with its code, and any other failure of the driver.
pub data DbError : Type 0 where
  no_rows : DbError
  pg_error : Text → DbError
  failure : DbError

pub data Error : Type 0 where
  not_found : Package → Error
  conflict : Package → Error
  organization_not_found : Package → Error
  invalid_input : Package → Error
  pdf_not_ready : Error
  object_not_found : Error
  object_exists : Error
  database : DbError → Error
  other : Text → Error

pub data Result (A : Type 0) : Type 0 where
  ok : A → Result A
  err : Error → Result A

-- To split on an answer and keep the equation.
pub Result-cases :
    {A : Type 0} (r : Result A) → ((a : A) × (r ≡ ok a)) ⊎ ((e : Error) × (r ≡ err e))
Result-cases (ok a) = inl (a, refl)
Result-cases (err e) = inr (e, refl)

abbrev pub map_err : {A : Type 0} → (Error → Error) → Result A → Result A
map_err f (ok a) = ok a
map_err f (err e) = err (f e)

abbrev pub map_ok : {A B : Type 0} → (A → B) → Result A → Result B
map_ok f (ok a) = ok (f a)
map_ok f (err e) = err e
