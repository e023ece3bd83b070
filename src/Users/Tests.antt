-- ===== src/Users/Tests.antt =====
-- Runs of the user routes, and the theorems about them at concrete inputs.
use tecora_be.Prelude.{◌≡◌, ◌≢◌, refl, true, [], ◌∷◌, none, some}
use tecora_be.Text.{codes, text_eq, trim_space}
use tecora_be.Http.{reply_error}
use tecora_be.Db.Table.{select_first}
use tecora_be.Db.Nullable.{of_text, unset, JsonField}
use tecora_be.Db.Builder.{Builder}
use tecora_be.Gin.{Claims, Key, Value, Context, set, next}
use tecora_be.Organizations.Slug.{normalize_slug}
use tecora_be.Users.Model.{User, UpdateInput, scan_user}
use tecora_be.Users.Repository as UserRepository
use tecora_be.Users.Repository.{build, Column, change_user}
use tecora_be.Users.Repository.Change.{wanted, build-wanted}
use tecora_be.Users.Repository.Invariant.{IsValid}
use tecora_be.Users.Context.{require_org_access}
use tecora_be.Users.Context.Access.{IsAdmitted, admitted, require_org_access-IsAdmitted}
use tecora_be.Users.Handler
use tecora_be.Users.Body.{UpdateBody}
use tecora_be.Users.Handler.Updates.{update-ne-refused}
use tecora_be.Samples.{plain_fold, server, db, alpha, ann, ann_claims, context}

abbrev behind : Context
unfolding set
behind = set Key.claims (Value.claims (some ann_claims)) context

abbrev ann_user : User
unfolding scan_user
ann_user = scan_user (ann, alpha)

access_runs : (require_org_access plain_fold behind db).0 ≡ next (admitted ann_user behind)
unfolding require_org_access behind ann_user UserRepository.get_by_clerk_user_id normalize_slug
    text_eq select_first
access_runs = refl

require_org_access-IsAdmitted_example :
    (cl : Claims) × (user : User) × IsAdmitted plain_fold behind db.tables cl user
    × (admitted ann_user behind ≡ admitted user behind)
require_org_access-IsAdmitted_example =
    require_org_access-IsAdmitted plain_fold behind (admitted ann_user behind) db access_runs

abbrev change : UpdateInput
change = record {
  email = record { set = true; null = true; value = [] };
  first_name = of_text (codes " Ann ");
  last_name = unset;
  organization_id = unset;
}

abbrev built : Builder Column
built = record {
  clauses = (Column.email, 2) ∷ (Column.first_name, 3) ∷ [];
  args = some (codes "user_ann") ∷ none ∷ some (codes "Ann") ∷ [];
  arg_pos = 4;
}

build_runs : build (codes "user_ann") change ≡ some built
unfolding build trim_space
build_runs = refl

build-wanted_example : change_user server 0 built ann ≡ wanted server 0 change ann
build-wanted_example = build-wanted server change (codes "user_ann") 0 built ann build_runs

db-IsValid : IsValid db.tables
unfolding text_eq
db-IsValid = record { ids = (refl, tt); clerk_ids = (refl, tt); members = (refl, tt) }

abbrev body : UpdateBody
body = record {
  email = JsonField.null;
  first_name = JsonField.string (codes " Ann ");
  last_name = JsonField.absent;
  organization_slug = JsonField.string (codes "Demo-Alpha");
}

update-ne-refused_example :
    (Handler.update plain_fold (codes "user_ann") (some body) db).0
    ≢ reply_error 400 "invalid user input"
update-ne-refused_example = update-ne-refused plain_fold (codes "user_ann") (some body) db
