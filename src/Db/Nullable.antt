-- ===== src/Db/Nullable.antt =====
-- The `NullableString` of internal/users/models.go and internal/customers/models.go: a JSON field
-- that tells an absent value from a null one.
use tecora_be.Prelude.{Bool, true, false, ◌&&◌, [], Option, none, some}
use tecora_be.Text.{Text, trim_space}

pub record NullableString : Type 0 where
  pub set : Bool
  pub null : Bool
  pub value : Text

-- The value of one field in a JSON object: left out, `null`, a string, or another value.
pub data JsonField : Type 0 where
  absent null : JsonField
  string : Text → JsonField
  not_string : JsonField

-- The zero value, which an absent field keeps.
abbrev pub unset : NullableString
unset = record { set = false; null = false; value = [] }

-- `UnmarshalJSON`; `none` is its error. An absent field does not call it.
unfoldable pub unmarshal_json : JsonField → Option NullableString
unmarshal_json absent = some unset
unmarshal_json null = some (record { set = true; null = true; value = [] })
unmarshal_json (string raw) = some (record { set = true; null = false; value = raw })
unmarshal_json not_string = none

-- A field of type `string`: `null` leaves it empty.
unfoldable pub unmarshal_string : JsonField → Option Text
unmarshal_string absent = some []
unmarshal_string null = some []
unmarshal_string (string raw) = some raw
unmarshal_string not_string = none

abbrev pub present : NullableString → Bool
present n = n.set

abbrev pub is_null : NullableString → Bool
is_null n = n.set && n.null

unfoldable pub trimmed : NullableString → Text
trimmed n = trim_space n.value

-- A value that is set and not null.
abbrev pub of_text : Text → NullableString
of_text s = record { set = true; null = false; value = s }
