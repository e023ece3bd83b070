-- ===== src/Users/Context.antt =====
-- internal/users/context.go
pub mod Access
use tecora_be.Prelude.{
  ℕ, Bool, true, false, not, ◌&&◌, ◌||◌, List, [], ◌∷◌, Option, none, some, is_empty, if◌then◌else◌,
}
use tecora_be.Text.{Text, text_eq, trim_space}
use tecora_be.Db.{Package, Error, not_found, Result, ok, err, Db}
use tecora_be.Organizations.Model.{Organization, is_none}
use tecora_be.Organizations.Slug.{normalize_slug}
use tecora_be.Users.Model.{User}
use tecora_be.Users.Repository.{get_by_clerk_user_id}
use tecora_be.Gin.{Claims, Key, Value, Context, set, Outcome, abort, next, Middleware}
use tecora_be.Middleware.Auth.{current_claims}

-- The answer to an error of the lookup.
unfoldable pub refuse : Error → Outcome
refuse (not_found Package.users) = abort 403 "user membership not found"
refuse _ = abort 500 "internal server error"

module _ (fold : ℕ → ℕ) where
  -- `RequireOrgAccess` from the user's row on
  unfoldable pub admit_user : Claims → User → Context → Outcome
  unfolding normalize_slug trim_space set
  admit_user cl user c =
      let org = user.organization in
      let org_slug = normalize_slug fold (trim_space cl.org_slug) in
      if not org.active || not (is_none org.deleted_at)
      then abort 403 "organization is inactive"
      else if not (is_empty org_slug) && not (text_eq org_slug org.slug)
      then abort 403 "organization access denied"
      else next (
          set Key.current_organization (Value.organization org) (
            set Key.current_user (Value.user (some user))
              (set Key.org_slug (Value.text org.slug) c)))

  abbrev pub admit_result : Claims → Context → Result User × Db → Outcome × Db
  admit_result cl c (ok user, db) = (admit_user cl user c, db)
  admit_result cl c (err e, db) = (refuse e, db)

  unfoldable pub require_org_access : Middleware
  unfolding current_claims trim_space get_by_clerk_user_id admit_user refuse
  require_org_access c db = elim (current_claims c) [
    | none ↦ (abort 401 "missing clerk claims", db)
    | some cl ↦
        let clerk_user_id = trim_space cl.subject in
        if is_empty clerk_user_id
        then (abort 401 "missing clerk subject", db)
        else admit_result cl c (get_by_clerk_user_id clerk_user_id db)
  ]

-- `raw.(*User)`, nil included
unfoldable pub as_user : Value → Option User
as_user (Value.user u) = u
as_user _ = none

unfoldable pub current_user : Context → Option User
unfolding as_user
current_user c = elim (c.keys Key.current_user) [ none ↦ none | some v ↦ as_user v ]

-- `raw.(organizations.Organization)`
unfoldable pub as_organization : Value → Option Organization
as_organization (Value.organization o) = some o
as_organization _ = none

unfoldable pub current_organization : Context → Option Organization
unfolding as_organization
current_organization c = elim (c.keys Key.current_organization) [
  | none ↦ none
  | some v ↦ as_organization v
]
