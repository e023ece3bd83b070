-- ===== src/Middleware/Auth.antt =====
-- internal/middleware/auth.go
pub mod Guards
use tecora_be.Prelude.{
  ℕ, Bool, true, false, not, ◌&&◌, ◌||◌, List, [], ◌∷◌, map, Option, none, some, any, is_empty, leb,
  ◌+◌, if◌then◌else◌,
}
use tecora_be.Text.{Text, codes, text_eq, trim_space, fields}
use tecora_be.Db.{Db, Error, Result, ok, err}
use tecora_be.Gin.{Claims, Key, Value, Context, set, Outcome, abort, next, Middleware}

-- The interface `TokenVerifier`. An error of `Verify` is `clerk.ErrNotConfigured`, or another.
pub data VerifyError : Type 0 where
  not_configured invalid : VerifyError

pub data Verified : Type 0 where
  claims : Claims → Verified
  refused : VerifyError → Verified

pub record TokenVerifier : Type 0 where
  pub enabled : Bool
  pub verify : Text → Verified

unfoldable pub ascii_lower : ℕ → ℕ
ascii_lower c = if leb b'A' c && leb c b'Z' then c + 32 else c

-- `strings.EqualFold` with a text of letters that fold with no letter beyond ASCII, as "Bearer"
unfoldable pub equal_fold : Text → Text → Bool
unfolding ascii_lower text_eq
equal_fold s t = text_eq (map ascii_lower s) (map ascii_lower t)

-- `len(parts) != 2 || !strings.EqualFold(parts[0], "Bearer")`: the token, where neither holds
unfoldable pub bearer_token : List Text → Option Text
unfolding equal_fold trim_space
bearer_token (scheme ∷ token ∷ []) =
    if equal_fold scheme (codes "Bearer") then some (trim_space token) else none
bearer_token _ = none

unfoldable pub admit : Context → Verified → Outcome
unfolding set
admit c (claims cl) = next (set Key.claims (Value.claims (some cl)) c)
admit c (refused not_configured) = abort 503 "auth not configured"
admit c (refused invalid) = abort 401 "invalid token"

-- `none` is the nil interface. Where Clerk is not configured, app.Run passes a nil pointer, whose
-- `Enabled` is false.
unfoldable pub clerk_auth : Option TokenVerifier → Context → Outcome
unfolding bearer_token admit fields
clerk_auth none c = abort 503 "auth not configured"
clerk_auth (some v) c =
    let header = trim_space c.request.authorization in
    if not v.enabled
    then abort 503 "auth not configured"
    else if is_empty header
    then abort 401 "missing authorization header"
    else elim (bearer_token (fields header)) [
      | none ↦ abort 401 "authorization header must use bearer token"
      | some token ↦ admit c (v.verify token)
    ]

-- The set that `ClerkAdminAllowlist` fills, as a list.
unfoldable pub allowed_ids : List Text → List Text
unfolding trim_space
allowed_ids [] = []
allowed_ids (id ∷ ids) =
    if is_empty (trim_space id) then allowed_ids ids else trim_space id ∷ allowed_ids ids

-- `rawClaims.(*clerk.Claims)`, nil included
unfoldable pub as_claims : Value → Option Claims
as_claims (Value.claims c) = c
as_claims _ = none

-- The three answers of the middlewares on the claims key: not set, of another type or nil, set.
pub data Found : Type 0 where
  missing wrong : Found
  found : Claims → Found

abbrev found_as : Option Claims → Found
found_as none = wrong
found_as (some c) = found c

unfoldable pub find_claims : Context → Found
unfolding as_claims
find_claims c = elim (c.keys Key.claims) [ none ↦ missing | some v ↦ found_as (as_claims v) ]

unfoldable pub clerk_admin_allowlist : List Text → Context → Outcome
unfolding allowed_ids find_claims
clerk_admin_allowlist ids c =
    let allowed = allowed_ids ids in
    if is_empty allowed then abort 503 "admin auth not configured" else elim (find_claims c) [
      | missing ↦ abort 401 "missing clerk claims"
      | wrong ↦ abort 401 "invalid clerk claims"
      | found cl ↦
          if any (λ id. text_eq id (trim_space cl.subject)) allowed
          then next c
          else abort 403 "admin access denied"
    ]

unfoldable pub clerk_org_scope : Context → Outcome
unfolding find_claims set trim_space
clerk_org_scope c = elim (find_claims c) [
  | missing ↦ abort 401 "missing clerk claims"
  | wrong ↦ abort 401 "invalid clerk claims"
  | found cl ↦
      if is_empty (trim_space cl.org_slug)
      then abort 400 "missing org slug"
      else next (set Key.org_slug (Value.text (trim_space cl.org_slug)) c)
]

-- `CurrentClaims`
unfoldable pub current_claims : Context → Option Claims
unfolding as_claims
current_claims c = elim (c.keys Key.claims) [ none ↦ none | some v ↦ as_claims v ]

-- `raw.(string)`
unfoldable pub as_text : Value → Option Text
as_text (Value.text s) = some s
as_text _ = none

-- `CurrentOrgSlug`: the text, and the second result. The test is on the text before it is trimmed.
unfoldable pub current_org_slug : Context → Text × Bool
unfolding as_text trim_space
current_org_slug c = elim (c.keys Key.org_slug) [
  | none ↦ ([], false)
  | some v ↦ elim (as_text v) [ none ↦ ([], false) | some s ↦ (trim_space s, not (is_empty s)) ]
]
