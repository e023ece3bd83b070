-- ===== src/Customers/Model.antt =====
-- internal/customers/models.go, and the scan of a row.
use tecora_be.Prelude.{ℕ, Bool, not, Option, is_empty}
use tecora_be.Text.{Text, trim_space}
use tecora_be.Db.{OrganizationRow, CustomerRow}
use tecora_be.Db.Nullable.{NullableString}
use tecora_be.Organizations.Model.{Organization, scan_organization}

pub record Customer : Type 0 where
  pub id : Text
  pub organization : Organization
  pub name : Text
  pub email : Option Text
  pub phone : Option Text
  pub address : Option Text
  pub notes : Option Text
  pub created_at : ℕ
  pub updated_at : ℕ
  pub deleted_at : Option ℕ

pub record CreateInput : Type 0 where
  pub organization_id : Text
  pub name : Text
  pub email : Option Text
  pub phone : Option Text
  pub address : Option Text
  pub notes : Option Text

pub record UpdateInput : Type 0 where
  pub name : NullableString
  pub email : NullableString
  pub phone : NullableString
  pub address : NullableString
  pub notes : NullableString

unfoldable pub validate_name : Text → Bool
unfolding trim_space
validate_name name = not (is_empty (trim_space name))

-- `scanCustomer` of a customer beside its organization.
unfoldable pub scan_customer : CustomerRow × OrganizationRow → Customer
unfolding scan_organization
scan_customer (c, o) = record {
  id = c.id;
  organization = scan_organization o;
  name = c.name;
  email = c.email;
  phone = c.phone;
  address = c.address;
  notes = c.notes;
  created_at = c.created_at;
  updated_at = c.updated_at;
  deleted_at = c.deleted_at;
}
