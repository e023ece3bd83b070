-- ===== src/Organizations/Handler.antt =====
-- internal/organizations/handler.go. A handler takes the path parameter and the body as
-- `ShouldBindJSON` leaves it, `none` where it returns an error.
pub mod Requests
use tecora_be.Prelude.{
  ℕ, Bool, true, false, not, ◌&&◌, List, Option, none, some, String, if◌then◌else◌,
}
use tecora_be.Text.{Text, trim_space}
use tecora_be.Http.{Response, reply, reply_error, reply_status}
use tecora_be.Db.{Error, not_found, conflict, Result, ok, err, Db}
use tecora_be.Db.{Package}
use tecora_be.Organizations.Slug.{normalize_slug, validate_slug, validate_name}
use tecora_be.Organizations.Model.{Organization, UpdateInput, is_none}
use tecora_be.Organizations.Repository

pub record CreateRequest : Type 0 where
  pub slug : Text
  pub name : Text

pub record UpdateRequest : Type 0 where
  pub name : Option Text
  pub active : Option Bool

unfoldable pub write_error : {A : Type 0} → Error → Response A
write_error (not_found Package.organizations) = reply_error 404 "organization not found"
write_error (conflict Package.organizations) = reply_error 409 "organization slug already exists"
write_error _ = reply_error 500 "internal server error"

-- The end of a handler: the error's response, or the value under `status`.
abbrev pub respond : {A : Type 0} → ℕ → Result A × Db → Response A × Db
respond status (ok a, db) = (reply status a, db)
respond status (err e, db) = (write_error e, db)

abbrev pub respond_status : {A : Type 0} → ℕ → Result A × Db → Response A × Db
respond_status status (ok _, db) = (reply_status status, db)
respond_status status (err e, db) = (write_error e, db)

unfoldable pub list : Db → Response (List Organization) × Db
unfolding Repository.list_active write_error
list db = respond 200 (Repository.list_active db)

module _ (fold : ℕ → ℕ) where
  unfoldable pub get : Text → Db → Response Organization × Db
  unfolding Repository.get_by_slug write_error normalize_slug validate_slug
  get param db =
      let slug = normalize_slug fold param in
      if not (validate_slug slug)
      then (reply_error 400 "invalid slug", db)
      else respond 200 (Repository.get_by_slug slug db)

  unfoldable pub create : Option CreateRequest → Db → Response Organization × Db
  unfolding Repository.create write_error normalize_slug validate_slug validate_name
  create none db = (reply_error 400 "invalid json body", db)
  create (some req) db =
      let slug = normalize_slug fold req.slug in
      let name = trim_space req.name in
      if not (validate_slug slug)
      then (reply_error 400 "invalid slug", db)
      else if not (validate_name name)
      then (reply_error 400 "invalid name", db)
      else respond 201 (Repository.create slug name db)

  -- `Update` from the test of the name on
  unfoldable pub update_with : Text → UpdateRequest → Db → Response Organization × Db
  unfolding Repository.update write_error validate_name
  update_with slug req db = elim req.name [
    | none ↦ respond 200 (Repository.update slug (record { name = none; active = req.active }) db)
    | some raw ↦
        let name = trim_space raw in
        if not (validate_name name)
        then (reply_error 400 "invalid name", db)
        else respond 200
            (Repository.update slug (record { name = some name; active = req.active }) db)
  ]

  unfoldable pub update : Text → Option UpdateRequest → Db → Response Organization × Db
  unfolding update_with normalize_slug validate_slug
  update param body db =
      let slug = normalize_slug fold param in
      if not (validate_slug slug) then (reply_error 400 "invalid slug", db) else elim body [
        | none ↦ (reply_error 400 "invalid json body", db)
        | some req ↦
            if is_none req.name && is_none req.active
            then (reply_error 400 "at least one field must be provided", db)
            else update_with slug req db
      ]

  unfoldable pub delete : Text → Db → Response (Unit {0}) × Db
  unfolding Repository.delete write_error normalize_slug validate_slug
  delete param db =
      let slug = normalize_slug fold param in
      if not (validate_slug slug)
      then (reply_error 400 "invalid slug", db)
      else respond_status 204 (Repository.delete slug db)
