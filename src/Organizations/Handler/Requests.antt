-- ===== src/Organizations/Handler/Requests.antt =====
-- The admin routes of internal/organizations as a whole: what a run of requests leaves behind.
use tecora_be.Prelude.{
  ℕ, ◌≡◌, true, Bool, List, [], ◌∷◌, Option, none, some, arith, Bool-cases, inl, inr,
}
use tecora_be.Text.{Text, trim_space}
use tecora_be.Db.{Result, ok, err, Tables, Db}
use tecora_be.Organizations.Slug.{normalize_slug, validate_slug, validate_name}
use tecora_be.Organizations.Model.{UpdateInput}
use tecora_be.Organizations.Repository
use tecora_be.Organizations.Repository.Frame.{get_by_slug-tables, list_active-tables}
use tecora_be.Organizations.Repository.Invariant.{
  Holds, IsGoodName, create-IsValid, update-IsValid, delete-IsValid,
}
use tecora_be.Organizations.Handler
use tecora_be.Organizations.Handler.{CreateRequest, UpdateRequest, respond, respond_status}

pub data Request : Type 0 where
  list : Request
  get : Text → Request
  create : Option CreateRequest → Request
  update : Text → Option UpdateRequest → Request
  delete : Text → Request

module _ (fold : ℕ → ℕ) where
  -- The database after a request.
  unfoldable pub serve : Request → Db → Db
  serve list db = (Handler.list db).1
  serve (get slug) db = (Handler.get fold slug db).1
  serve (create body) db = (Handler.create fold body db).1
  serve (update slug body) db = (Handler.update fold slug body db).1
  serve (delete slug) db = (Handler.delete fold slug db).1

  unfoldable pub serve_all : List Request → Db → Db
  unfolding serve
  serve_all [] db = db
  serve_all (r ∷ rs) db = serve_all rs (serve r db)

-- What each of the calls that write keeps.
pub record IsInductive {κ} (P : Tables → Type κ) : Type κ where
  pub creates :
      (db : Db) (slug name : Text)
      → validate_slug slug ≡ true
      → validate_name name ≡ true
      → P db.tables
      → P (Repository.create slug name db).1.tables
  pub updates :
      (db : Db) (slug : Text) (input : UpdateInput)
      → IsGoodName input.name
      → P db.tables
      → P (Repository.update slug input db).1.tables
  pub deletes : (db : Db) (slug : Text) → P db.tables → P (Repository.delete slug db).1.tables

module _ {κ} (P : Tables → Type κ) (rule : IsInductive P) where
  respond_keeps :
      {A : Type 0} (status : ℕ) (r : Result A × Db) → P r.1.tables → P (respond status r).1.tables
  respond_keeps status (ok a, db) h = h
  respond_keeps status (err e, db) h = h

  respond_status_keeps :
      {A : Type 0} (status : ℕ) (r : Result A × Db)
      → P r.1.tables
      → P (respond_status status r).1.tables
  respond_status_keeps status (ok a, db) h = h
  respond_status_keeps status (err e, db) h = h

  reads_keep :
      {A : Type 0} (status : ℕ) (r : Result A × Db) (db : Db)
      → r.1.tables ≡ db.tables
      → P db.tables
      → P (respond status r).1.tables
  reads_keep status r db e h = respond_keeps status r (rw e h)

  module _ (fold : ℕ → ℕ) where
    create_keeps :
        (req : CreateRequest) (db : Db)
        → P db.tables
        → P (Handler.create fold (some req) db).1.tables
    unfolding Handler.create
    create_keeps req db h = elim (Bool-cases (validate_slug (normalize_slug fold req.slug))) [
      | inr bad ↦ rw bad h
      | inl good ↦ elim (Bool-cases (validate_name (trim_space req.name))) [
        | inr blank ↦ rw (good, blank) h
        | inl named ↦ rw (good, named) (respond_keeps 201 _ (rule.creates db _ _ good named h))
      ]
    ]

    update_with_keeps :
        (slug : Text) (name : Option Text) (active : Option Bool) (db : Db)
        → P db.tables
        → P (Handler.update_with fold slug (record { name = name; active = active }) db).1.tables
    unfolding Handler.update_with
    update_with_keeps slug none active db h =
        respond_keeps 200 _ (rule.updates db slug (record { name = none; active = active }) tt h)
    update_with_keeps slug (some raw) active db h =
        elim (Bool-cases (validate_name (trim_space raw))) [
          | inr blank ↦ rw blank h
          | inl named ↦ rw named (
              respond_keeps 200 _ (
                rule.updates db slug (record { name = some (trim_space raw); active = active })
                  named h))
        ]

    update_keeps :
        (param : Text) (body : Option UpdateRequest) (db : Db)
        → P db.tables
        → P (Handler.update fold param body db).1.tables
    unfolding Handler.update
    update_keeps param none db h = ground arith
    update_keeps param (some req) db h =
        ground (arith, update_with_keeps (normalize_slug fold param) req.name req.active db h)

    get_keeps : (slug : Text) (db : Db) → P db.tables → P (Handler.get fold slug db).1.tables
    unfolding Handler.get
    get_keeps slug db h = elim (Bool-cases (validate_slug (normalize_slug fold slug))) [
      | inr bad ↦ rw bad h
      | inl good ↦
          rw good (reads_keep 200 _ db (get_by_slug-tables db (normalize_slug fold slug)) h)
    ]

    delete_keeps : (slug : Text) (db : Db) → P db.tables → P (Handler.delete fold slug db).1.tables
    unfolding Handler.delete
    delete_keeps slug db h = elim (Bool-cases (validate_slug (normalize_slug fold slug))) [
      | inr bad ↦ rw bad h
      | inl good ↦
          rw good (respond_status_keeps 204 _ (rule.deletes db (normalize_slug fold slug) h))
    ]

    -- What its effects keep, a request keeps.
    pub serve_keeps : (r : Request) (db : Db) → P db.tables → P (serve fold r db).tables
    unfolding serve Handler.list
    serve_keeps list db h = reads_keep 200 _ db (list_active-tables db) h
    serve_keeps (get slug) db h = get_keeps slug db h
    serve_keeps (create none) db h = unfold Handler.create in h
    serve_keeps (create (some req)) db h = create_keeps req db h
    serve_keeps (update slug body) db h = update_keeps slug body db h
    serve_keeps (delete slug) db h = delete_keeps slug db h

valid_rule : IsInductive Holds
valid_rule = record {
  creates = λ db slug name hs hn h. create-IsValid db h slug name hs hn;
  updates = λ db slug input good h. update-IsValid db h slug input good;
  deletes = λ db slug h. delete-IsValid db h slug;
}

-- Whatever requests reach the admin routes, and whatever becomes of their statements, keys and
-- slugs stay unique, every stored slug is valid and no stored name is blank.
pub serve_all-IsValid :
    (fold : ℕ → ℕ) (rs : List Request) (db : Db)
    → Holds db.tables
    → Holds (serve_all fold rs db).tables
unfolding serve_all
serve_all-IsValid fold [] db h = h
serve_all-IsValid fold (r ∷ rs) db h =
    serve_all-IsValid fold rs (serve fold r db) (serve_keeps Holds valid_rule fold r db h)
