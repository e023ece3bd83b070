-- ===== src/Gin.antt =====
-- gin's context as the middleware uses it: the request's headers, and the values that `c.Set`
-- leaves for `c.Get`. The keys are the constants of internal/middleware/auth.go and
-- internal/users/context.go, which are four different texts.
use tecora_be.Prelude.{ℕ, Bool, true, false, Option, some, String, if◌then◌else◌, List}
use tecora_be.Prelude.Int.{ℤ}
use tecora_be.Text.{Text}
use tecora_be.Db.{Db}
use tecora_be.Organizations.Model.{Organization}
use tecora_be.Users.Model.{User}

-- The `json.RawMessage` of the audience: left out, a string, an array of strings, or another value.
pub data Audience : Type 0 where
  absent other : Audience
  single : Text → Audience
  multiple : List Text → Audience

-- internal/auth/clerk/verifier.go
pub record Claims : Type 0 where
  pub subject : Text
  pub issuer : Text
  pub audience : Audience
  pub expiry : ℤ
  pub not_before : ℤ
  pub subject_id : Text
  pub org_slug : Text

pub data Key : Type 0 where
  claims org_slug current_user current_organization : Key

-- A value with its Go type. A pointer may be nil.
pub data Value : Type 0 where
  claims : Option Claims → Value
  text : Text → Value
  user : Option User → Value
  organization : Organization → Value

-- A missing header reads as the empty text.
pub record Request : Type 0 where
  pub authorization : Text
  pub origin : Text
  pub is_options : Bool

pub record Context : Type 0 where
  pub request : Request
  pub keys : Key → Option Value

unfoldable pub key_eq : Key → Key → Bool
key_eq Key.claims Key.claims = true
key_eq Key.org_slug Key.org_slug = true
key_eq Key.current_user Key.current_user = true
key_eq Key.current_organization Key.current_organization = true
key_eq _ _ = false

-- `c.Set`
unfoldable pub set : Key → Value → Context → Context
unfolding key_eq
set k v c = record c { keys = λ j. if key_eq k j then some v else c.keys j }

-- What a middleware does: abort with a status and an error, or go on with a context.
pub data Outcome : Type 0 where
  abort : ℕ → String → Outcome
  next : Context → Outcome

abbrev pub Middleware : Type 0
Middleware = Context → Db → Outcome × Db
