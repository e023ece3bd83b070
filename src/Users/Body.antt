-- ===== src/Users/Body.antt =====
-- The bodies of the requests of internal/users/handler.go, and the tests of their fields.
use tecora_be.Prelude.{not, ◌||◌, Option, none, some, String, is_empty, if◌then◌else◌}
use tecora_be.Text.{Text}
use tecora_be.Db.Nullable.{
  NullableString, JsonField, unset, unmarshal_json, unmarshal_string, present, is_null, trimmed,
  of_text,
}

-- `optionalToPtr`; `none` is its error
unfoldable pub optional_to_ptr : NullableString → Option (Option Text)
unfolding trimmed
optional_to_ptr f =
    if not (present f) || is_null f
    then some none
    else if is_empty (trimmed f)
    then none
    else some (some (trimmed f))

-- The fields of a JSON body.
pub record CreateBody : Type 0 where
  pub clerk_user_id : JsonField
  pub email : JsonField
  pub first_name : JsonField
  pub last_name : JsonField
  pub organization_slug : JsonField

pub record CreateRequest : Type 0 where
  pub clerk_user_id : Text
  pub email : NullableString
  pub first_name : NullableString
  pub last_name : NullableString
  pub organization_slug : Text

infixl 5 ◌>>=◌
abbrev pub ◌>>=◌ : {A B : Type 0} → Option A → (A → Option B) → Option B
none >>= f = none
some a >>= f = f a

-- `ShouldBindJSON`
unfoldable pub bind_create : Option CreateBody → Option CreateRequest
unfolding unmarshal_json unmarshal_string
bind_create body = do
  b ← body
  k ← unmarshal_string b.clerk_user_id
  e ← unmarshal_json b.email
  f ← unmarshal_json b.first_name
  l ← unmarshal_json b.last_name
  s ← unmarshal_string b.organization_slug
  some (record {
    clerk_user_id = k;
    email = e;
    first_name = f;
    last_name = l;
    organization_slug = s;
  })

pub record UpdateBody : Type 0 where
  pub email : JsonField
  pub first_name : JsonField
  pub last_name : JsonField
  pub organization_slug : JsonField

pub record UpdateRequest : Type 0 where
  pub email : NullableString
  pub first_name : NullableString
  pub last_name : NullableString
  pub organization_slug : NullableString

unfoldable pub bind_update : Option UpdateBody → Option UpdateRequest
unfolding unmarshal_json
bind_update body = do
  b ← body
  e ← unmarshal_json b.email
  f ← unmarshal_json b.first_name
  l ← unmarshal_json b.last_name
  s ← unmarshal_json b.organization_slug
  some (record { email = e; first_name = f; last_name = l; organization_slug = s })

-- One of the `if req.X.Present() { … }` of `Update`; `none` is its 400 response.
unfoldable pub update_field : NullableString → Option NullableString
update_field f =
    if not (present f)
    then some unset
    else if is_null f
    then some f
    else if is_empty (trimmed f)
    then none
    else some (of_text (trimmed f))

-- The first three of them, in order; an error is the message of the response.
pub data Checked : Type 0 where
  fine : (email first_name last_name : NullableString) → Checked
  bad : String → Checked

unfoldable pub check_fields : UpdateRequest → Checked
check_fields req = elim (update_field req.email) [
  | none ↦ bad "invalid email"
  | some e ↦ elim (update_field req.first_name) [
    | none ↦ bad "invalid first name"
    | some f ↦ elim (update_field req.last_name) [
      | none ↦ bad "invalid last name"
      | some l ↦ fine e f l
    ]
  ]
]
