-- ===== src/Users/Repository/Invariant.antt =====
-- What the users table satisfies at all times: unique keys and Clerk ids, and organizations that
-- exist.
use mathlib.Core.Path.{fun_ext}
use tecora_be.Prelude.{
  ℕ, ◌≡◌, refl, Bool, true, false, ◌&&◌, ◌||◌, [], ◌∷◌, Option, none, some, arith, any, All,
  All-append, Bool-cases, Option-cases, inl, inr, if◌then◌else◌,
}
use tecora_be.Text.{Text, text_eq}
use tecora_be.Db.{UserRow, Server, Tables, Db, query_keeps, returning_keeps}
use tecora_be.Db.Table.{select_first, update_where, update_where-All}
use tecora_be.Db.Keyed.{IsUnique, update_where-IsUnique, append-IsUnique}
use tecora_be.Db.Nullable.{trimmed}
use tecora_be.Db.Builder.{Builder}
use tecora_be.Users.Model.{CreateInput, UpdateInput}
use tecora_be.Users.Repository.{
  Column, build, is_readable, keep_or, change_user, change_found, has_organization, has_clerk_id,
  is_live, new_user, insert_user_into, insert_user, create, update_user, update, mark_deleted,
  delete_user, delete,
}
use tecora_be.Users.Repository.Change.{wanted, build-wanted}

abbrev pub IsMember : Tables → UserRow → Type 0
IsMember t u = has_organization u.organization_id t ≡ true

pub record IsValid (t : Tables) : Type 0 where
  pub ids : IsUnique (λ u. u.id) t.users
  pub clerk_ids : IsUnique (λ u. u.clerk_user_id) t.users
  pub members : All (IsMember t) t.users

update_where-IsValid :
    (t : Tables) (p : UserRow → Bool) (f : UserRow → UserRow)
    → ((u : UserRow) → (f u).id ≡ u.id)
    → ((u : UserRow) → (f u).clerk_user_id ≡ u.clerk_user_id)
    → ((u : UserRow) → p u ≡ true → IsMember t u → IsMember t (f u))
    → IsValid t
    → IsValid (record t { users = update_where p f t.users })
update_where-IsValid t p f hid hclerk hmember v = record {
  ids = update_where-IsUnique (λ (u : UserRow). u.id) p f t.users hid v.ids;
  clerk_ids =
      update_where-IsUnique (λ (u : UserRow). u.clerk_user_id) p f t.users hclerk v.clerk_ids;
  members = update_where-All (IsMember t) p f t.users hmember v.members;
}

change_member :
    (t : Tables) (set : Bool) (read : Option Text) (u r : Text)
    → has_organization (if set then keep_or u read else u) t ≡ true
    → has_organization r t ≡ true
    → has_organization (if set then keep_or r read else r) t ≡ true
change_member t false read u r hu hr = hr
change_member t true none u r hu hr = hr
change_member t true (some id) u r hu hr = hu

module _ (sv : Server) (n : ℕ) (t : Tables) (v : IsValid t) where
  insert_into_IsValid :
      (input : CreateInput) (organization : Option Text)
      → IsValid (insert_user_into input organization sv n t).1
  unfolding insert_user_into
  insert_into_IsValid input none = v
  insert_into_IsValid input (some org) =
      let row = new_user input org sv n in
      elim (Bool-cases
        (any (λ u. text_eq u.id row.id) t.users || any (has_clerk_id row.clerk_user_id) t.users)) [
          | inl taken ↦ rw taken v
          | inr free ↦ elim (Bool-cases (has_organization org t)) [
            | inr missing ↦ rw (free, missing) v
            | inl there ↦
                rw (free, there)
                  (record {
                    ids = append-IsUnique (λ (u : UserRow). u.id) t.users row (ground arith) v.ids;
                    clerk_ids =
                        append-IsUnique (λ (u : UserRow). u.clerk_user_id) t.users row
                          (ground arith) v.clerk_ids;
                    members =
                        All-append (IsMember t) t.users (row ∷ []) v.members
                          (unfold new_user in there, tt);
                  })
          ]
        ]

  -- The organization of a changed row is its own, or that of every changed row.
  wanted-IsMember :
      (input : UpdateInput) (u r : UserRow)
      → IsMember t (wanted sv n input u)
      → IsMember t r
      → IsMember t (wanted sv n input r)
  unfolding wanted
  wanted-IsMember input u r hu hr =
      change_member t input.organization_id.set (sv.parse_uuid (trimmed input.organization_id))
        u.organization_id r.organization_id hu hr

  change_found-IsValid :
      (k : Text) (input : UpdateInput) (found : Option UserRow) (chosen : UserRow → Bool)
      → IsValid (change_found found (wanted sv n input) chosen t).1
  change_found-IsValid k input none chosen = v
  change_found-IsValid k input (some u) chosen =
      elim (Bool-cases (has_organization (wanted sv n input u).organization_id t)) [
        | inr missing ↦ rw missing v
        | inl there ↦ rw there (
            update_where-IsValid t chosen (wanted sv n input) (λ _. unfold wanted in refl)
              (λ _. unfold wanted in refl) (λ r _ m. wanted-IsMember input u r there m) v)
      ]

  update_IsValid :
      (k : Text) (input : UpdateInput) (b : Builder Column)
      → build k input ≡ some b
      → IsValid (update_user k b sv n t).1
  unfolding update_user
  update_IsValid k input b h =
      let same : change_user sv n b ≡ wanted sv n input =
        fun_ext (λ u. build-wanted sv input k n b u h) in
      let chosen = λ (u : UserRow). has_clerk_id k u && is_live u in
      let kept = change_found-IsValid k input (select_first chosen t.users) chosen in
      rw same (elim (Bool-cases (is_readable sv b.args b.clauses)) [
        | inl reads ↦ rw reads kept
        | inr unread ↦ rw unread v
      ])

  delete_IsValid : (k : Text) → IsValid (delete_user k sv n t).1
  unfolding delete_user mark_deleted
  delete_IsValid k =
      let chosen = λ (u : UserRow). has_clerk_id k u && is_live u in
      let rows = update_where chosen (mark_deleted (sv.now n)) t.users in
      returning_keeps IsValid (select_first chosen t.users) (λ u. u.id) t
        (record t { users = rows }) v
        (update_where-IsValid t chosen (mark_deleted (sv.now n)) (λ _. refl) (λ _. refl)
          (λ u _ m. m) v)

-- Each call keeps the table valid, whatever becomes of the connection.
module _ (db : Db) (v : IsValid db.tables) where
  pub create-IsValid : (input : CreateInput) → IsValid (create input db).1.tables
  unfolding create insert_user
  create-IsValid input = query_keeps IsValid (insert_user input) db v (
      insert_into_IsValid db.server db.step db.tables v input
        (db.server.parse_uuid input.organization_id))

  -- An update keeps Clerk ids unique and every user in an organization that exists.
  pub update-IsValid : (k : Text) (input : UpdateInput) → IsValid (update k input db).1.tables
  unfolding update
  update-IsValid k input = elim (Option-cases (build k input)) [
    | inl refused ↦ rw refused v
    | inr (b, built) ↦ rw built (
        query_keeps IsValid (update_user k b) db v
          (update_IsValid db.server db.step db.tables v k input b built))
  ]

  pub delete-IsValid : (k : Text) → IsValid (delete k db).1.tables
  unfolding delete
  delete-IsValid k =
      query_keeps IsValid (delete_user k) db v (delete_IsValid db.server db.step db.tables v k)
