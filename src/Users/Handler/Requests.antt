-- ===== src/Users/Handler/Requests.antt =====
-- The admin routes of internal/users as a whole: what a request leaves behind.
use tecora_be.Prelude.{
  ℕ, ◌≡◌, Bool, true, false, not, ◌&&◌, ◌||◌, Option, none, some, is_empty, if◌then◌else◌,
}
use tecora_be.Text.{Text, trim_space}
use tecora_be.Http.{Response, reply_error}
use tecora_be.Db.{Result, ok, err, Tables, Db}
use tecora_be.Db.Nullable.{NullableString, present, is_null, trimmed}
use tecora_be.Organizations.Model.{Organization}
use tecora_be.Organizations.Slug.{normalize_slug, validate_slug}
use tecora_be.Organizations.Repository
use tecora_be.Organizations.Repository.Frame.{get_by_slug-tables}
use tecora_be.Users.Model.{User, CreateInput, UpdateInput}
use tecora_be.Users.Repository as UserRepository
use tecora_be.Users.Repository.Frame.{list_active-tables, get_by_clerk_user_id-tables}
use tecora_be.Users.Handler
use tecora_be.Users.Body.{
  CreateBody, CreateRequest, UpdateBody, UpdateRequest, Checked, fine, bad, bind_create,
  bind_update, check_fields,
}
use tecora_be.Users.Handler.{
  respond, respond_status, create_with, create_from, update_to, update_checked,
}

pub data Request : Type 0 where
  list : Request
  get : Text → Request
  create : Option CreateBody → Request
  update : Text → Option UpdateBody → Request
  delete : Text → Request

module _ (fold : ℕ → ℕ) where
  -- The database after a request.
  unfoldable pub serve : Request → Db → Db
  serve list db = (Handler.list db).1
  serve (get param) db = (Handler.get param db).1
  serve (create body) db = (Handler.create fold body db).1
  serve (update param body) db = (Handler.update fold param body db).1
  serve (delete param) db = (Handler.delete param db).1

-- What each of the calls that write keeps.
pub record IsInductive {κ} (P : Tables → Type κ) : Type κ where
  pub creates :
      (db : Db) (input : CreateInput) → P db.tables → P (UserRepository.create input db).1.tables
  pub updates :
      (db : Db) (k : Text) (input : UpdateInput)
      → P db.tables
      → P (UserRepository.update k input db).1.tables
  pub deletes : (db : Db) (k : Text) → P db.tables → P (UserRepository.delete k db).1.tables

module _ {κ} (P : Tables → Type κ) (rule : IsInductive P) where
  respond_keeps :
      {A : Type 0} (status : ℕ) (r : Result A × Db) → P r.1.tables → P (respond status r).1.tables
  respond_keeps status (ok a, db) h = h
  respond_keeps status (err e, db) h = h

  respond_status_keeps :
      {A : Type 0} (status : ℕ) (r : Result A × Db)
      → P r.1.tables
      → P (respond_status status r).1.tables
  respond_status_keeps status (ok a, db) h = h
  respond_status_keeps status (err e, db) h = h

  reads_keep :
      {A : Type 0} (status : ℕ) (r : Result A × Db) (db : Db)
      → r.1.tables ≡ db.tables
      → P db.tables
      → P (respond status r).1.tables
  reads_keep status r db e h = respond_keeps status r (rw e h)

  -- What both branches of a test keep.
  if_keeps :
      {A : Type 0} (b : Bool) (x y : A × Db)
      → P x.1.tables
      → P y.1.tables
      → P (if b then x else y).1.tables
  if_keeps true x y hx hy = hx
  if_keeps false x y hx hy = hy

  input_keeps :
      (i : Option CreateInput) (db : Db)
      → P db.tables
      → P
          (elim i as (λ _. Response User × Db) [
            | none ↦ (reply_error 400 "invalid value", db)
            | some x ↦ respond 201 (UserRepository.create x db)
          ]).1.tables
  input_keeps none db h = h
  input_keeps (some x) db h = respond_keeps 201 _ (rule.creates db x h)

  create_with_keeps :
      (k : Text) (req : CreateRequest) (r : Result Organization × Db)
      → P r.1.tables
      → P (create_with k req r).1.tables
  unfolding create_with
  create_with_keeps k req (err e, db) h = h
  create_with_keeps k req (ok org, db) h = input_keeps _ db h

  update_to_keeps :
      (k : Text) (e f l : NullableString) (r : Result Organization × Db)
      → P r.1.tables
      → P (update_to k e f l r).1.tables
  unfolding update_to
  update_to_keeps k e f l (err x, db) h = h
  update_to_keeps k e f l (ok org, db) h = respond_keeps 200 _ (rule.updates db k _ h)

  module _ (fold : ℕ → ℕ) where
    create_from_keeps :
        (r : Option CreateRequest) (db : Db)
        → P db.tables
        → P
            (elim r as (λ _. Response User × Db) [
              | none ↦ (reply_error 400 "invalid json body", db)
              | some req ↦ create_from fold req db
            ]).1.tables
    unfolding create_from
    create_from_keeps none db h = h
    create_from_keeps (some req) db h =
        let slug = normalize_slug fold req.organization_slug in
        let found : P (Repository.get_by_slug slug db).1.tables =
          rw (get_by_slug-tables db slug) h in
        if_keeps (is_empty (trim_space req.clerk_user_id)) _ _ h (
          if_keeps (not (validate_slug slug)) _ _ h
            (create_with_keeps (trim_space req.clerk_user_id) req _ found))

    create_keeps :
        (body : Option CreateBody) (db : Db)
        → P db.tables
        → P (Handler.create fold body db).1.tables
    unfolding Handler.create
    create_keeps body db h = create_from_keeps (bind_create body) db h

    update_checked_keeps :
        (k : Text) (req : UpdateRequest) (c : Checked) (db : Db)
        → P db.tables
        → P (update_checked fold k req c db).1.tables
    unfolding update_checked
    update_checked_keeps k req (bad message) db h = h
    update_checked_keeps k req (fine e f l) db h =
        let s = req.organization_slug in
        let slug = normalize_slug fold (trimmed s) in
        let found : P (Repository.get_by_slug slug db).1.tables =
          rw (get_by_slug-tables db slug) h in
        if_keeps (not (present s)) _ _ (respond_keeps 200 _ (rule.updates db k _ h))
          (if_keeps (is_null s || not (validate_slug slug)) _ _ h (update_to_keeps k e f l _ found))

    update_bound_keeps :
        (k : Text) (r : Option UpdateRequest) (db : Db)
        → P db.tables
        → P
            (elim r as (λ _. Response User × Db) [
              | none ↦ (reply_error 400 "invalid json body", db)
              | some req ↦
                  if not (present req.email)
                    && not (present req.first_name)
                    && not (present req.last_name)
                    && not (present req.organization_slug)
                  then (reply_error 400 "at least one field must be provided", db)
                  else update_checked fold k req (check_fields req) db
            ]).1.tables
    update_bound_keeps k none db h = h
    update_bound_keeps k (some req) db h =
        if_keeps
          (not (present req.email)
            && not (present req.first_name)
            && not (present req.last_name)
            && not (present req.organization_slug))
          _ _ h (update_checked_keeps k req (check_fields req) db h)

    update_keeps :
        (param : Text) (body : Option UpdateBody) (db : Db)
        → P db.tables
        → P (Handler.update fold param body db).1.tables
    unfolding Handler.update
    update_keeps param body db h =
        if_keeps (is_empty (trim_space param)) _ _ h
          (update_bound_keeps (trim_space param) (bind_update body) db h)

    -- What its effects keep, a request keeps.
    pub serve_keeps : (r : Request) (db : Db) → P db.tables → P (serve fold r db).tables
    unfolding serve Handler.list Handler.get Handler.delete
    serve_keeps list db h = reads_keep 200 _ db (list_active-tables db) h
    serve_keeps (get param) db h =
        if_keeps (is_empty (trim_space param)) _ _ h
          (reads_keep 200 _ db (get_by_clerk_user_id-tables db (trim_space param)) h)
    serve_keeps (create body) db h = create_keeps body db h
    serve_keeps (update param body) db h = update_keeps param body db h
    serve_keeps (delete param) db h =
        if_keeps (is_empty (trim_space param)) _ _ h
          (respond_status_keeps 204 _ (rule.deletes db (trim_space param) h))
