-- ===== src/Organizations/Repository/Frame.antt =====
-- The methods of internal/organizations/repository.go that write leave the other tables alone, and
-- keep every organization.
use tecora_be.Prelude.{◌≡◌, refl, Bool, ◌&&◌, ◌||◌, any, Bool-cases, inl, inr}
use tecora_be.Text.{Text, text_eq}
use tecora_be.Db.{OrganizationRow, Tables, Db, query_keeps, returning_keeps}
use tecora_be.Db.Table.{select_first, update_where}
use tecora_be.Db.Frame.{OrganizationsOnly, append-Keeps, update_where-Keeps}
use tecora_be.Organizations.Model.{UpdateInput}
use tecora_be.Organizations.Repository.{
  select_active, list_active, select_by_slug, get_by_slug, new_organization, insert_organization,
  create, patch_organization, update_organization, update, mark_deleted, delete_organization,
  delete, has_slug, is_live,
}

unchanged : (t : Tables) → OrganizationsOnly t t
unchanged t = record {
  organizations = λ id h. h;
  users = refl;
  customers = refl;
  acceptances = refl;
  work_orders = refl;
}

changed :
    (t : Tables) (p : OrganizationRow → Bool) (f : OrganizationRow → OrganizationRow)
    → ((o : OrganizationRow) → (f o).id ≡ o.id)
    → OrganizationsOnly t (record t { organizations = update_where p f t.organizations })
changed t p f keep = record {
  organizations = update_where-Keeps p f t.organizations keep;
  users = refl;
  customers = refl;
  acceptances = refl;
  work_orders = refl;
}

module _ (db : Db) where
  abbrev IsNext : Tables → Type 0
  IsNext t = OrganizationsOnly db.tables t

  pub create-OrganizationsOnly :
      (slug name : Text) → OrganizationsOnly db.tables (create slug name db).1.tables
  unfolding create insert_organization
  create-OrganizationsOnly slug name =
      let t = db.tables in
      let row = new_organization slug name db.server db.step in
      query_keeps IsNext (insert_organization slug name) db (unchanged t)
        (elim (Bool-cases
          (any (λ o. text_eq o.id row.id) t.organizations || any (has_slug slug) t.organizations)) [
            | inl taken ↦ rw taken (unchanged t)
            | inr free ↦ rw free (record {
              organizations = append-Keeps t.organizations row;
              users = refl;
              customers = refl;
              acceptances = refl;
              work_orders = refl;
            })
          ])

  pub update-OrganizationsOnly :
      (slug : Text) (input : UpdateInput)
      → OrganizationsOnly db.tables (update slug input db).1.tables
  unfolding update update_organization
  update-OrganizationsOnly slug input =
      let change = patch_organization input (db.server.now db.step) in
      query_keeps IsNext (update_organization slug input) db (unchanged db.tables)
        (elim (Bool-cases db.server.is_simple) [
          | inr prepared ↦ rw prepared (unchanged db.tables)
          | inl simple ↦ rw simple (
              returning_keeps IsNext (select_first (has_slug slug) db.tables.organizations) change
                db.tables _ (unchanged db.tables)
                (changed db.tables (has_slug slug) change (λ _. unfold patch_organization in refl)))
        ])

  pub delete-OrganizationsOnly :
      (slug : Text) → OrganizationsOnly db.tables (delete slug db).1.tables
  unfolding delete delete_organization mark_deleted
  delete-OrganizationsOnly slug =
      let chosen = λ (o : OrganizationRow). has_slug slug o && is_live o in
      query_keeps IsNext (delete_organization slug) db (unchanged db.tables) (
        returning_keeps IsNext (select_first chosen db.tables.organizations) (λ o. o.id) db.tables _
          (unchanged db.tables)
          (changed db.tables chosen (mark_deleted (db.server.now db.step)) (λ _. refl)))

  -- The two that read leave every table alone.
  pub get_by_slug-tables : (slug : Text) → (get_by_slug slug db).1.tables ≡ db.tables
  unfolding get_by_slug select_by_slug
  get_by_slug-tables slug =
      query_keeps (λ t. t ≡ db.tables) (select_by_slug slug) db refl
        (returning_keeps (λ t. t ≡ db.tables)
          (select_first (λ o. has_slug slug o && is_live o) db.tables.organizations) (λ o. o)
          db.tables db.tables refl refl)

  pub list_active-tables : (list_active db).1.tables ≡ db.tables
  unfolding list_active select_active
  list_active-tables = query_keeps (λ t. t ≡ db.tables) select_active db refl refl
