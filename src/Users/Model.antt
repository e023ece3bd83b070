-- ===== src/Users/Model.antt =====
-- internal/users/models.go
use tecora_be.Prelude.{ℕ, Option}
use tecora_be.Text.{Text}
use tecora_be.Db.{OrganizationRow, UserRow}
use tecora_be.Db.Nullable.{NullableString}
use tecora_be.Organizations.Model.{Organization, scan_organization}

pub record User : Type 0 where
  pub id : Text
  pub clerk_user_id : Text
  pub email : Option Text
  pub first_name : Option Text
  pub last_name : Option Text
  pub organization : Organization
  pub created_at : ℕ
  pub updated_at : ℕ
  pub deleted_at : Option ℕ

pub record CreateInput : Type 0 where
  pub clerk_user_id : Text
  pub email : Option Text
  pub first_name : Option Text
  pub last_name : Option Text
  pub organization_id : Text

pub record UpdateInput : Type 0 where
  pub email : NullableString
  pub first_name : NullableString
  pub last_name : NullableString
  pub organization_id : NullableString

-- `scanUser` of a user beside its organization; `org.Active = org.DeletedAt == nil` is what
-- `scan_organization` does too.
unfoldable pub scan_user : UserRow × OrganizationRow → User
unfolding scan_organization
scan_user (u, o) = record {
  id = u.id;
  clerk_user_id = u.clerk_user_id;
  email = u.email;
  first_name = u.first_name;
  last_name = u.last_name;
  organization = scan_organization o;
  created_at = u.created_at;
  updated_at = u.updated_at;
  deleted_at = u.deleted_at;
}
