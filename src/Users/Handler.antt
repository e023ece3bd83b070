-- ===== src/Users/Handler.antt =====
-- internal/users/handler.go. A handler takes the path parameter and the body: `none` for a text
-- that is no JSON object, else its fields.
pub mod Updates
pub mod Requests
use tecora_be.Prelude.{
  ℕ, Bool, true, false, not, ◌&&◌, ◌||◌, List, Option, none, some, String, is_empty, if◌then◌else◌,
}
use tecora_be.Text.{Text, trim_space}
use tecora_be.Http.{Response, reply, reply_error, reply_status}
use tecora_be.Db.{
  Package, Error, not_found, conflict, organization_not_found, invalid_input, Result, ok, err, Db,
}
use tecora_be.Db.Nullable.{
  NullableString, JsonField, unset, unmarshal_json, unmarshal_string, present, is_null, trimmed,
  of_text,
}
use tecora_be.Gin.{Claims, Context}
use tecora_be.Middleware.Auth.{current_claims}
use tecora_be.Organizations.Slug.{normalize_slug, validate_slug}
use tecora_be.Organizations.Model.{Organization}
use tecora_be.Organizations.Repository
use tecora_be.Users.Model.{User, CreateInput, UpdateInput}
use tecora_be.Users.Repository as UserRepository
use tecora_be.Users.Context.{current_user, current_organization}
use tecora_be.Users.Body.{
  Checked, CreateBody, CreateRequest, UpdateBody, UpdateRequest, bad, bind_create, bind_update,
  check_fields, fine, optional_to_ptr, update_field, ◌>>=◌,
}

unfoldable pub write_org_error : {A : Type 0} → Error → Response A
write_org_error (not_found Package.organizations) = reply_error 404 "organization not found"
write_org_error _ = reply_error 500 "internal server error"

unfoldable pub write_error : {A : Type 0} → Error → Response A
write_error (not_found Package.users) = reply_error 404 "user not found"
write_error (conflict Package.users) = reply_error 409 "clerk user already exists"
write_error (organization_not_found Package.users) = reply_error 404 "organization not found"
write_error (invalid_input Package.users) = reply_error 400 "invalid user input"
write_error _ = reply_error 500 "internal server error"

abbrev pub respond : {A : Type 0} → ℕ → Result A × Db → Response A × Db
respond status (ok a, db) = (reply status a, db)
respond status (err e, db) = (write_error e, db)

abbrev pub respond_status : {A : Type 0} → ℕ → Result A × Db → Response A × Db
respond_status status (ok _, db) = (reply_status status, db)
respond_status status (err e, db) = (write_error e, db)

unfoldable pub list : Db → Response (List User) × Db
unfolding write_error
list db = respond 200 (UserRepository.list_active db)

unfoldable pub get : Text → Db → Response User × Db
unfolding write_error
get param db =
    let k = trim_space param in
    if is_empty k
    then (reply_error 400 "invalid clerk user id", db)
    else respond 200 (UserRepository.get_by_clerk_user_id k db)

unfoldable pub delete : Text → Db → Response (Unit {0}) × Db
unfolding write_error
delete param db =
    let k = trim_space param in
    if is_empty k
    then (reply_error 400 "invalid clerk user id", db)
    else respond_status 204 (UserRepository.delete k db)

-- The body of `Me`; its "auth" object is the last two fields.
pub record Profile : Type 0 where
  pub user : User
  pub organization : Organization
  pub clerk_user_id : Text
  pub org_slug : Text

unfoldable pub me : Context → Response Profile
unfolding current_user current_organization current_claims
me c = elim (current_user c) [
  | none ↦ reply_error 401 "missing current user"
  | some u ↦ elim (current_organization c) [
    | none ↦ reply_error 401 "missing current organization"
    | some o ↦ elim (current_claims c) [
      | none ↦ reply_error 401 "missing clerk claims"
      | some cl ↦
          reply 200
            (record { user = u; organization = o; clerk_user_id = cl.subject; org_slug = o.slug })
    ]
  ]
]

-- `Create` from the answer of `orgs.GetBySlug` on
unfoldable pub create_with : Text → CreateRequest → Result Organization × Db → Response User × Db
unfolding write_error write_org_error optional_to_ptr
create_with k req (err e, db) = (write_org_error e, db)
create_with k req (ok org, db) =
    let input = (do
      e ← optional_to_ptr req.email
      f ← optional_to_ptr req.first_name
      l ← optional_to_ptr req.last_name
      let i : CreateInput = record {
        clerk_user_id = k;
        email = e;
        first_name = f;
        last_name = l;
        organization_id = org.id;
      }
      some i) in
    elim input [
      | none ↦ (reply_error 400 "invalid value", db)
      | some i ↦ respond 201 (UserRepository.create i db)
    ]

abbrev pub update_input :
    NullableString → NullableString → NullableString → NullableString → UpdateInput
update_input e f l o = record { email = e; first_name = f; last_name = l; organization_id = o }

-- `Update` from the answer of `orgs.GetBySlug` on
unfoldable pub update_to :
    Text
    → NullableString
    → NullableString
    → NullableString
    → Result Organization × Db
    → Response User × Db
unfolding write_error write_org_error
update_to k e f l (err x, db) = (write_org_error x, db)
update_to k e f l (ok org, db) =
    respond 200 (UserRepository.update k (update_input e f l (of_text org.id)) db)

module _ (fold : ℕ → ℕ) where
  unfoldable pub create_from : CreateRequest → Db → Response User × Db
  create_from req db =
      let k = trim_space req.clerk_user_id in
      let slug = normalize_slug fold req.organization_slug in
      if is_empty k
      then (reply_error 400 "invalid clerk user id", db)
      else if not (validate_slug slug)
      then (reply_error 400 "invalid organization slug", db)
      else create_with k req (Repository.get_by_slug slug db)

  unfoldable pub create : Option CreateBody → Db → Response User × Db
  create body db = elim (bind_create body) [
    | none ↦ (reply_error 400 "invalid json body", db)
    | some req ↦ create_from req db
  ]

  unfoldable pub update_checked : Text → UpdateRequest → Checked → Db → Response User × Db
  unfolding write_error
  update_checked k req (bad message) db = (reply_error 400 message, db)
  update_checked k req (fine e f l) db =
      let s = req.organization_slug in
      let slug = normalize_slug fold (trimmed s) in
      if not (present s)
      then respond 200 (UserRepository.update k (update_input e f l unset) db)
      else if is_null s || not (validate_slug slug)
      then (reply_error 400 "invalid organization slug", db)
      else update_to k e f l (Repository.get_by_slug slug db)

  unfoldable pub update : Text → Option UpdateBody → Db → Response User × Db
  update param body db =
      let k = trim_space param in
      if is_empty k
      then (reply_error 400 "invalid clerk user id", db)
      else elim (bind_update body) [
        | none ↦ (reply_error 400 "invalid json body", db)
        | some req ↦
            if not (present req.email)
              && not (present req.first_name)
              && not (present req.last_name)
              && not (present req.organization_slug)
            then (reply_error 400 "at least one field must be provided", db)
            else update_checked k req (check_fields req) db
      ]
