-- ===== src/Organizations/Repository/Directory.antt =====
-- The organizations as a caller sees them: a directory from slugs to a name and a state, and what
-- each repository method does to it.
use mathlib.Core.Option
use tecora_be.Prelude.{
  ◌≡◌, refl, Bool, true, false, Option, none, some, arith, any, if◌then◌else◌, Option-cases,
  Bool-cases, inl, inr,
}
use tecora_be.Text.{Text, codes, text_eq}
use tecora_be.Text.Trim.{text_eq_iff}
use tecora_be.Db.{
  OrganizationRow, Package, pg_error, not_found, conflict, database, Result, ok, err, map_ok,
  Server, Tables, Db, sound,
}
use tecora_be.Db.Table.{select_first}
use tecora_be.Db.Keyed.{
  select_first-and, any_of_select_first, any_of_some, select_first-append_new,
  select_first-update_key, select_first-update_and,
}
use tecora_be.Organizations.Model.{Organization, UpdateInput, scan_organization}
use tecora_be.Organizations.Repository
use tecora_be.Organizations.Repository.{
  get_by_slug, select_by_slug, insert_organization, new_organization, coalesce, deleted_at_for,
  patch_organization, update_organization, mark_deleted, delete_organization, has_slug, is_live,
  translate_write_error, translate_row_error,
}
use tecora_be.Organizations.Repository.Invariant.{Holds}

pub record View : Type 0 where
  pub name : Text
  pub active : Bool

abbrev pub Directory : Type 0
Directory = Text → Option View

abbrev view_row : OrganizationRow → View
view_row o = record { name = o.name; active = is_live o }

abbrev pub directory : Tables → Directory
directory t slug = Option.map view_row (select_first (has_slug slug) t.organizations)

abbrev put : Text → View → Directory → Directory
put slug v d s = if text_eq slug s then some v else d s

pub data Call : Type 0 where
  get : Text → Call
  create : Text → Text → Call
  update : Text → UpdateInput → Call
  delete : Text → Call

abbrev view_of : Organization → Option View
view_of o = some (record { name = o.name; active = o.active })

-- A call of the repository, and what its caller learns.
pub perform : Call → Db → Result (Option View) × Db
perform (get slug) db = let (r, db') = get_by_slug slug db in (map_ok view_of r, db')
perform (create slug name) db =
    let (r, db') = Repository.create slug name db in (map_ok view_of r, db')
perform (update slug input) db =
    let (r, db') = Repository.update slug input db in (map_ok view_of r, db')
perform (delete slug) db = let (r, db') = Repository.delete slug db in (map_ok (λ _. none) r, db')

abbrev gone : Result (Option View)
gone = err (not_found Package.organizations)

-- The server cannot tell the type of a parameter.
abbrev untyped : Result (Option View)
untyped = err (database (pg_error (codes "42P08")))

abbrev slug_of : Call → Text
slug_of (get slug) = slug
slug_of (create slug _) = slug
slug_of (update slug _) = slug
slug_of (delete slug) = slug

-- What a call promises on the directory, given the entry of its slug.
abbrev settle : Server → Call → Directory → Option View → Result (Option View) × Directory
settle sv (get slug) d none = (gone, d)
settle sv (get slug) d (some v) = (if v.active then ok (some v) else gone, d)
settle sv (create slug name) d none =
    let v : View = record { name = name; active = true } in (ok (some v), put slug v d)
settle sv (create slug name) d (some _) = (err (conflict Package.organizations), d)
settle sv (update slug input) d none = (if sv.is_simple then gone else untyped, d)
settle sv (update slug input) d (some v) =
    let w : View = record {
      name = coalesce input.name v.name;
      active = coalesce input.active v.active;
    } in
    if sv.is_simple then (ok (some w), put slug w d) else (untyped, d)
settle sv (delete slug) d none = (gone, d)
settle sv (delete slug) d (some v) =
    if v.active then (ok none, put slug (record { name = v.name; active = false }) d) else (gone, d)

abbrev pub promise : Server → Call → Directory → Result (Option View) × Directory
promise sv c d = settle sv c d (d (slug_of c))

-- The statement is answered, and its generated key is new.
pub record IsServed (db : Db) : Type 0 where
  pub answered : db.server.fault db.step ≡ sound
  pub fresh :
      any (λ o. text_eq o.id (db.server.gen_random_uuid db.step)) db.tables.organizations ≡ false

abbrev pub Keeps : Call → Db → Type 0
Keeps c db =
    ((perform c db).0 ≡ (promise db.server c (directory db.tables)).0)
    × ((s : Text)
        → directory (perform c db).1.tables s ≡ (promise db.server c (directory db.tables)).1 s)

translate_duplicate :
    translate_write_error (database (pg_error (codes "23505"))) ≡ conflict Package.organizations
unfolding translate_write_error
translate_duplicate = refl

module _ (db : Db) (v : Holds db.tables) (served : IsServed db) where
  get-Keeps : (slug : Text) → Keeps (get slug) db
  unfolding perform get_by_slug select_by_slug scan_organization translate_row_error
  get-Keeps slug =
      let only =
        select_first-and (λ (o : OrganizationRow). o.slug) slug is_live db.tables.organizations
          v.slugs in
      rw (served.answered, only) (ground arith, λ s. ground arith)

  create-Keeps : (slug name : Text) → Keeps (create slug name) db
  unfolding perform Repository.create insert_organization new_organization scan_organization
  create-Keeps slug name =
      let find = select_first (has_slug slug) db.tables.organizations in
      elim (Option-cases find) [
        | inl e ↦
            let new = any_of_select_first (has_slug slug) db.tables.organizations e in
            let row = new_organization slug name db.server db.step in
            rw (served.answered, served.fresh, new)
              (
                ground arith,
                λ s. ground (
                  arith,
                  select_first-append_new (λ (o : OrganizationRow). o.slug) db.tables.organizations
                      row s new,
                ),
              )
        | inr (o, e) ↦
            rw
              (
                served.answered,
                served.fresh,
                any_of_some (has_slug slug) db.tables.organizations o e,
              )
              (ground (arith, translate_duplicate), λ s. ground arith)
      ]

  update-Keeps : (slug : Text) (input : UpdateInput) → Keeps (update slug input) db
  unfolding perform Repository.update update_organization scan_organization translate_row_error
  update-Keeps slug input =
      let change = patch_organization input (db.server.now db.step) in
      elim (Bool-cases db.server.is_simple) [
        | inr prepared ↦ rw (served.answered, prepared) (ground arith, λ s. ground arith)
        | inl simple ↦
            rw (served.answered, simple)
              (
                ground arith,
                λ s. ground (
                  arith,
                  text_eq_iff slug s,
                  select_first-update_key (λ (o : OrganizationRow). o.slug) change
                      db.tables.organizations slug s (λ o. refl),
                ),
              )
      ]

  delete-Keeps : (slug : Text) → Keeps (delete slug) db
  unfolding perform Repository.delete delete_organization translate_row_error
  delete-Keeps slug =
      let change = mark_deleted (db.server.now db.step) in
      let key = λ (o : OrganizationRow). o.slug in
      rw (served.answered, select_first-and key slug is_live db.tables.organizations v.slugs)
        (
          ground arith,
          λ s. ground (
            arith,
            text_eq_iff slug s,
            select_first-update_and key change is_live db.tables.organizations slug s (λ o. refl),
          ),
        )

  -- In a valid table of organizations, with a statement that is answered and a new key, each call of
  -- the repository does to the directory what it promises, and tells its caller so: `GetBySlug` shows
  -- an active entry, `Create` adds one under a new slug, `Delete` deactivates one. `Update` fails with
  -- 42P08 and changes nothing, unless the connection uses the simple protocol; then it changes the
  -- name and the state that it is given.
  pub perform-refines : (c : Call) → Keeps c db
  perform-refines (get slug) = get-Keeps slug
  perform-refines (create slug name) = create-Keeps slug name
  perform-refines (update slug input) = update-Keeps slug input
  perform-refines (delete slug) = delete-Keeps slug
