-- ===== src/Organizations/Repository/Invariant.antt =====
-- What the organizations table satisfies at all times, statement by statement.
use tecora_be.Prelude.{
  ℕ, ◌≡◌, refl, Bool, true, ◌&&◌, ◌||◌, List, [], ◌∷◌, Option, none, some, arith, any, All,
  All-append, Bool-cases, inl, inr,
}
use tecora_be.Text.{Text, text_eq}
use tecora_be.Db.{OrganizationRow, Server, Tables, Db, query_keeps, returning_keeps}
use tecora_be.Db.Table.{select_first, update_where, update_where-All}
use tecora_be.Db.Keyed.{IsUnique, update_where-IsUnique, append-IsUnique}
use tecora_be.Organizations.Slug.{validate_slug, validate_name}
use tecora_be.Organizations.Model.{UpdateInput}
use tecora_be.Organizations.Repository.{
  select_active, list_active, select_by_slug, get_by_slug, new_organization, insert_organization,
  create, coalesce, patch_organization, update_organization, update, mark_deleted,
  delete_organization, delete, has_slug, is_live,
}

-- A stored organization has a valid slug and a name that is not blank.
abbrev pub IsWellNamed : OrganizationRow → Type 0
IsWellNamed o = (validate_slug o.slug ≡ true) × (validate_name o.name ≡ true)

pub record IsValid (rows : List OrganizationRow) : Type 0 where
  pub ids : IsUnique (λ o. o.id) rows
  pub slugs : IsUnique (λ o. o.slug) rows
  pub named : All IsWellNamed rows

abbrev pub Holds : Tables → Type 0
Holds t = IsValid t.organizations

-- A name that an update may carry.
abbrev pub IsGoodName : Option Text → Type 0
IsGoodName none = Unit
IsGoodName (some name) = validate_name name ≡ true

coalesce_good :
    (new : Option Text) (old : Text)
    → IsGoodName new
    → validate_name old ≡ true
    → validate_name (coalesce new old) ≡ true
coalesce_good none old g h = h
coalesce_good (some name) old g h = g

patch-IsWellNamed :
    (input : UpdateInput) (now : ℕ) (o : OrganizationRow)
    → IsGoodName input.name
    → IsWellNamed o
    → IsWellNamed (patch_organization input now o)
unfolding patch_organization
patch-IsWellNamed input now o good w = (w.0, coalesce_good input.name o.name good w.1)

-- An UPDATE that keeps keys, slugs and names in order keeps the table valid.
update_where-IsValid :
    (p : OrganizationRow → Bool) (f : OrganizationRow → OrganizationRow)
    (rows : List OrganizationRow)
    → ((o : OrganizationRow) → (f o).id ≡ o.id)
    → ((o : OrganizationRow) → (f o).slug ≡ o.slug)
    → ((o : OrganizationRow) → IsWellNamed o → IsWellNamed (f o))
    → IsValid rows
    → IsValid (update_where p f rows)
update_where-IsValid p f rows hid hslug hname v = record {
  ids = update_where-IsUnique (λ (o : OrganizationRow). o.id) p f rows hid v.ids;
  slugs = update_where-IsUnique (λ (o : OrganizationRow). o.slug) p f rows hslug v.slugs;
  named = update_where-All IsWellNamed p f rows (λ o _ w. hname o w) v.named;
}

module _ (sv : Server) (n : ℕ) (t : Tables) (v : Holds t) where
  insert_IsValid :
      (slug name : Text)
      → validate_slug slug ≡ true
      → validate_name name ≡ true
      → Holds (insert_organization slug name sv n t).1
  unfolding insert_organization
  insert_IsValid slug name hs hn =
      let row = new_organization slug name sv n in
      elim (Bool-cases
        (any (λ o. text_eq o.id row.id) t.organizations || any (has_slug slug) t.organizations)) [
          | inl taken ↦ rw taken v
          | inr free ↦ rw free (record {
            ids =
                append-IsUnique (λ (o : OrganizationRow). o.id) t.organizations row (ground arith)
                  v.ids;
            slugs =
                append-IsUnique (λ (o : OrganizationRow). o.slug) t.organizations row (ground arith)
                  v.slugs;
            named = All-append IsWellNamed t.organizations (row ∷ []) v.named ((hs, hn), tt);
          })
        ]

  update_IsValid :
      (slug : Text) (input : UpdateInput)
      → IsGoodName input.name
      → Holds (update_organization slug input sv n t).1
  unfolding update_organization
  update_IsValid slug input good =
      let change = patch_organization input (sv.now n) in
      let rows = update_where (has_slug slug) change t.organizations in
      elim (Bool-cases sv.is_simple) [
        | inr prepared ↦ rw prepared v
        | inl simple ↦ rw simple (
            returning_keeps Holds (select_first (has_slug slug) t.organizations) change t
              (record t { organizations = rows }) v
              (update_where-IsValid (has_slug slug) change t.organizations
                (λ _. unfold patch_organization in refl) (λ _. unfold patch_organization in refl)
                (λ o w. patch-IsWellNamed input (sv.now n) o good w) v))
      ]

  delete_IsValid : (slug : Text) → Holds (delete_organization slug sv n t).1
  unfolding delete_organization mark_deleted
  delete_IsValid slug =
      let chosen = λ (o : OrganizationRow). has_slug slug o && is_live o in
      let rows = update_where chosen (mark_deleted (sv.now n)) t.organizations in
      returning_keeps Holds (select_first chosen t.organizations) (λ o. o.id) t
        (record t { organizations = rows }) v
        (update_where-IsValid chosen (mark_deleted (sv.now n)) t.organizations (λ _. refl)
          (λ _. refl) (λ o w. w) v)

-- Each call keeps the table valid, whatever becomes of the connection.
module _ (db : Db) (v : Holds db.tables) where
  pub create-IsValid :
      (slug name : Text)
      → validate_slug slug ≡ true
      → validate_name name ≡ true
      → Holds (create slug name db).1.tables
  unfolding create
  create-IsValid slug name hs hn =
      query_keeps Holds (insert_organization slug name) db v
        (insert_IsValid db.server db.step db.tables v slug name hs hn)

  pub update-IsValid :
      (slug : Text) (input : UpdateInput)
      → IsGoodName input.name
      → Holds (update slug input db).1.tables
  unfolding update
  update-IsValid slug input good =
      query_keeps Holds (update_organization slug input) db v
        (update_IsValid db.server db.step db.tables v slug input good)

  pub delete-IsValid : (slug : Text) → Holds (delete slug db).1.tables
  unfolding delete
  delete-IsValid slug =
      query_keeps Holds (delete_organization slug) db v
        (delete_IsValid db.server db.step db.tables v slug)

  pub get_by_slug-IsValid : (slug : Text) → Holds (get_by_slug slug db).1.tables
  unfolding get_by_slug
  get_by_slug-IsValid slug =
      query_keeps Holds (select_by_slug slug) db v
        (unfold select_by_slug in (returning_keeps Holds _ _ db.tables db.tables v v))

  pub list_active-IsValid : Holds (list_active db).1.tables
  unfolding list_active
  list_active-IsValid = query_keeps Holds select_active db v (unfold select_active in v)
