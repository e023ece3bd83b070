-- ===== src/Organizations/Tests.antt =====
-- Runs of the organization routes, and the theorems about them at concrete inputs.
use tecora_be.Prelude.{◌≡◌, refl, ◌↔◌, true, false, []}
use tecora_be.Text.{codes, text_eq}
use tecora_be.Organizations.Slug.{validate_slug, normalize_slug, IsSlug, validate_name}
use tecora_be.Organizations.Slug.Shape.{validate_slug_iff}
use tecora_be.Organizations.Repository.Invariant.{Holds}
use tecora_be.Organizations.Repository.Directory as Directory
use tecora_be.Organizations.Repository.Directory.{perform-refines, IsServed, Keeps}
use tecora_be.Samples.{plain_fold, db}

slug_runs :
    (validate_slug (codes "demo-alpha") ≡ true)
    × (validate_slug (codes "demo--alpha") ≡ false)
    × (validate_slug (codes "-demo") ≡ false)
    × (validate_slug [] ≡ false)
    × (normalize_slug plain_fold (codes " Demo-Alpha ") ≡ codes "demo-alpha")
unfolding validate_slug normalize_slug
slug_runs = (refl, refl, refl, refl, refl)

validate_slug_iff_example :
    (validate_slug (codes "demo-alpha") ≡ true) ↔ IsSlug (codes "demo-alpha")
validate_slug_iff_example = validate_slug_iff (codes "demo-alpha")

db-IsValid : Holds db.tables
unfolding text_eq validate_slug validate_name
db-IsValid = record {
  ids = (refl, (refl, tt));
  slugs = (refl, (refl, tt));
  named = ((refl, refl), ((refl, refl), tt));
}

served : IsServed db
unfolding text_eq
served = record { answered = refl; fresh = refl }

perform-refines_example : Keeps (Directory.create (codes "new") (codes "New one")) db
perform-refines_example =
    perform-refines db db-IsValid served (Directory.create (codes "new") (codes "New one"))
