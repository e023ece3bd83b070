-- ===== src/Organizations/Model.antt =====
-- internal/organizations/models.go: the organization as Go sees it.
use tecora_be.Prelude.{ℕ, Bool, true, false, Option, none, some}
use tecora_be.Text.{Text}
use tecora_be.Db.{OrganizationRow}

pub record Organization : Type 0 where
  pub id : Text
  pub slug : Text
  pub name : Text
  pub active : Bool
  pub created_at : ℕ
  pub updated_at : ℕ
  pub deleted_at : Option ℕ

pub record UpdateInput : Type 0 where
  pub name : Option Text
  pub active : Option Bool

abbrev pub is_none : {A : Type 0} → Option A → Bool
is_none none = true
is_none (some _) = false

unfoldable pub mark_active : Organization → Organization
mark_active o = record o { active = is_none o.deleted_at }

-- `Scan` into a zero `Organization`, and `markActive`
unfoldable pub scan_organization : OrganizationRow → Organization
unfolding mark_active
scan_organization r = mark_active (record {
  id = r.id;
  slug = r.slug;
  name = r.name;
  active = false;
  created_at = r.created_at;
  updated_at = r.updated_at;
  deleted_at = r.deleted_at;
})
