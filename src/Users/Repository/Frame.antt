-- ===== src/Users/Repository/Frame.antt =====
-- The methods of internal/users/repository.go leave the other tables alone.
use tecora_be.Prelude.{
  ◌≡◌, refl, Bool, ◌&&◌, ◌||◌, Option, none, some, any, Bool-cases, Option-cases, inl, inr,
}
use tecora_be.Text.{Text, text_eq}
use tecora_be.Db.{UserRow, Tables, Db, query_keeps, returning_keeps}
use tecora_be.Db.Table.{select_first}
use tecora_be.Db.Builder.{Builder}
use tecora_be.Db.Frame.{UsersOnly}
use tecora_be.Users.Model.{CreateInput, UpdateInput}
use tecora_be.Users.Repository.{
  Column, build, is_readable, change_user, change_found, joined, has_organization, has_clerk_id,
  is_live, new_user, insert_user_into, insert_user, create, update_user, update, mark_deleted,
  delete_user, delete, select_by_clerk_id, get_by_clerk_user_id, select_active, list_active,
}

module _ (db : Db) where
  abbrev IsNext : Tables → Type 0
  IsNext t = UsersOnly db.tables t

  unchanged : IsNext db.tables
  unchanged = record {
    organizations = refl;
    customers = refl;
    acceptances = refl;
    work_orders = refl;
  }

  insert-UsersOnly :
      (input : CreateInput) (organization : Option Text)
      → IsNext (insert_user_into input organization db.server db.step db.tables).1
  unfolding insert_user_into
  insert-UsersOnly input none = unchanged
  insert-UsersOnly input (some org) =
      let t = db.tables in
      let row = new_user input org db.server db.step in
      elim (Bool-cases
        (any (λ u. text_eq u.id row.id) t.users || any (has_clerk_id row.clerk_user_id) t.users)) [
          | inl taken ↦ rw taken unchanged
          | inr free ↦ elim (Bool-cases (has_organization org t)) [
            | inr missing ↦ rw (free, missing) unchanged
            | inl there ↦
                rw (free, there)
                  (record {
                    organizations = refl;
                    customers = refl;
                    acceptances = refl;
                    work_orders = refl;
                  })
          ]
        ]

  pub create-UsersOnly : (input : CreateInput) → UsersOnly db.tables (create input db).1.tables
  unfolding create insert_user
  create-UsersOnly input =
      query_keeps IsNext (insert_user input) db unchanged
        (insert-UsersOnly input (db.server.parse_uuid input.organization_id))

  found-UsersOnly :
      (found : Option UserRow) (change : UserRow → UserRow) (chosen : UserRow → Bool)
      → IsNext (change_found found change chosen db.tables).1
  found-UsersOnly none change chosen = unchanged
  found-UsersOnly (some u) change chosen =
      elim (Bool-cases (has_organization (change u).organization_id db.tables)) [
        | inr missing ↦ rw missing unchanged
        | inl there ↦ rw there (record {
          organizations = refl;
          customers = refl;
          acceptances = refl;
          work_orders = refl;
        })
      ]

  update_user-UsersOnly :
      (k : Text) (b : Builder Column) → IsNext (update_user k b db.server db.step db.tables).1
  unfolding update_user
  update_user-UsersOnly k b =
      let chosen = λ (u : UserRow). has_clerk_id k u && is_live u in
      elim (Bool-cases (is_readable db.server b.args b.clauses)) [
        | inl reads ↦ rw reads (
            found-UsersOnly (select_first chosen db.tables.users) (change_user db.server db.step b)
              chosen)
        | inr unread ↦ rw unread unchanged
      ]

  pub update-UsersOnly :
      (k : Text) (input : UpdateInput) → UsersOnly db.tables (update k input db).1.tables
  unfolding update
  update-UsersOnly k input = elim (Option-cases (build k input)) [
    | inl refused ↦ rw refused unchanged
    | inr (b, built) ↦
        rw built (query_keeps IsNext (update_user k b) db unchanged (update_user-UsersOnly k b))
  ]

  pub delete-UsersOnly : (k : Text) → UsersOnly db.tables (delete k db).1.tables
  unfolding delete delete_user mark_deleted
  delete-UsersOnly k =
      let chosen = λ (u : UserRow). has_clerk_id k u && is_live u in
      query_keeps IsNext (delete_user k) db unchanged (
        returning_keeps IsNext (select_first chosen db.tables.users) (λ u. u.id) db.tables _
          unchanged
          (record {
            organizations = refl;
            customers = refl;
            acceptances = refl;
            work_orders = refl;
          }))

  read-tables : (found : Option UserRow) (t : Tables) → (joined found t t).1 ≡ t
  read-tables none t = refl
  read-tables (some u) t = refl

  pub get_by_clerk_user_id-tables : (k : Text) → (get_by_clerk_user_id k db).1.tables ≡ db.tables
  unfolding get_by_clerk_user_id select_by_clerk_id
  get_by_clerk_user_id-tables k =
      query_keeps (λ t. t ≡ db.tables) (select_by_clerk_id k) db refl
        (read-tables (select_first (λ u. has_clerk_id k u && is_live u) db.tables.users) db.tables)

  pub list_active-tables : (list_active db).1.tables ≡ db.tables
  unfolding list_active select_active
  list_active-tables = query_keeps (λ t. t ≡ db.tables) select_active db refl refl
