-- ===== src/Customers/Repository/Tenant.antt =====
-- Whose customers the methods of internal/customers/repository.go write.
use tecora_be.Prelude.{
  ℕ, ◌≡◌, ap, not, ◌||◌, Option, none, some, is_empty, Bool-cases, Option-cases, inl, inr,
}
use tecora_be.Text.{Text, trim_space}
use tecora_be.Db.{CustomerRow, Server, Tables, Db, Statement, query, query_keeps}
use tecora_be.Db.Uuid.{with_uuid, with_uuid_keeps}
use tecora_be.Db.Table.{select_first}
use tecora_be.Db.Builder.{Builder}
use tecora_be.Customers.Model.{CreateInput, UpdateInput, validate_name}
use tecora_be.Customers.Repository
use tecora_be.Customers.Repository.{
  Column, is_customer, is_live, joined, join_organization, with_uuids, select_active,
  list_active_by_organization_id, select_customer, get_by_id, new_customer, insert_customer, insert,
  build, change_customer, update_customer, mark_deleted, delete_customer,
}
use tecora_be.Customers.Repository.Own.{
  OwnOnly, unchanged, joined-OwnOnly, insert_customer-OwnOnly, update_customer-OwnOnly,
  delete_customer-OwnOnly,
}
use tecora_be.Customers.Repository.Change.{wanted, change_customer-build}

-- A call, with the organization that it is given.
pub data Call : Type 0 where
  list : Call
  get : Text → Call
  create : CreateInput → Call
  update : Text → UpdateInput → Call
  delete : Text → Call

-- The database after a call. `Create` takes the organization in its input.
unfoldable pub perform : Text → Call → Db → Db
perform org Call.list db = (list_active_by_organization_id org db).1
perform org (Call.get id) db = (get_by_id org id db).1
perform org (Call.create input) db =
    (Repository.create (record input { organization_id = org }) db).1
perform org (Call.update id input) db = (Repository.update org id input db).1
perform org (Call.delete id) db = (Repository.delete org id db).1

keeps_owner :
    (org id : Text) (input : UpdateInput) (b : Builder Column) (sv : Server) (n : ℕ)
    → build org id input ≡ some b
    → (c : CustomerRow) → (change_customer b sv n c).organization_id ≡ c.organization_id
unfolding wanted
keeps_owner org id input b sv n built c =
    ap (λ (d : CustomerRow). d.organization_id) (change_customer-build org id input b sv n c built)

-- What a statement of each organization leaves, a call leaves that sends it with two UUIDs.
uuids-OwnOnly :
    {A : Type 0} (org id : Text) (f : Text → Text → Statement A) (db : Db)
    → ((o i : Text) → OwnOnly (some o) db.tables (f o i db.server db.step db.tables).1)
    → OwnOnly (db.server.parse_uuid org) db.tables (query (with_uuids org id f) db).1.tables
uuids-OwnOnly org id f db h =
    query_keeps (OwnOnly (db.server.parse_uuid org) db.tables) (with_uuids org id f) db
      (unchanged db.tables (db.server.parse_uuid org)) (read (db.server.parse_uuid org))
  where
    read :
        (o : Option Text)
        → OwnOnly o db.tables
            (with_uuid o
              (λ k. with_uuid (db.server.parse_uuid id) (f k))
              db.server
              db.step
              db.tables).1
    read none = unfold with_uuid in unchanged db.tables none
    read (some k) =
        unfold with_uuid in
        with_uuid_keeps (OwnOnly (some k) db.tables) (db.server.parse_uuid id) (f k) db.server
          db.step db.tables (unchanged db.tables (some k)) (h k)

-- A statement with one UUID.
uuid-OwnOnly :
    {A : Type 0} (o : Option Text) (f : Text → Statement A) (sv : Server) (n : ℕ) (t : Tables)
    → ((k : Text) → OwnOnly (some k) t (f k sv n t).1)
    → OwnOnly o t (with_uuid o f sv n t).1
unfolding with_uuid
uuid-OwnOnly none f sv n t h = unchanged t none
uuid-OwnOnly (some k) f sv n t h = h k

module _ (org : Text) (db : Db) where
  abbrev pub Leaves : Db → Type 0
  Leaves db' = OwnOnly (db.server.parse_uuid (trim_space org)) db.tables db'.tables

  list-OwnOnly : Leaves (list_active_by_organization_id org db).1
  unfolding list_active_by_organization_id select_active
  list-OwnOnly =
      let key = db.server.parse_uuid (trim_space org) in
      query_keeps (OwnOnly key db.tables) (select_active (trim_space org)) db
        (unchanged db.tables key)
        (uuid-OwnOnly key _ db.server db.step db.tables (λ k. unchanged db.tables (some k)))

  get-OwnOnly : (id : Text) → Leaves (get_by_id org id db).1
  unfolding get_by_id select_customer
  get-OwnOnly id = uuids-OwnOnly (trim_space org) (trim_space id) select_customer db (λ o i.
      joined-OwnOnly db.tables (some o) (select_first (is_customer o i) db.tables.customers)
        db.tables (unchanged db.tables (some o)))

  create-OwnOnly :
      (input : CreateInput)
      → Leaves (Repository.create (record input { organization_id = org }) db).1
  unfolding Repository.create insert
  create-OwnOnly input =
      let key = db.server.parse_uuid (trim_space org) in
      let name = trim_space input.name in
      let sent = record input { organization_id = org } in
      elim (Bool-cases (is_empty (trim_space org) || not (validate_name name))) [
        | inl refused ↦ rw refused (unchanged db.tables key)
        | inr accepted ↦ rw accepted (
            query_keeps (OwnOnly key db.tables) (insert sent (trim_space org) name) db
              (unchanged db.tables key)
              (uuid-OwnOnly key (insert_customer sent name) db.server db.step db.tables
                (λ k. insert_customer-OwnOnly db.tables sent name k db.server db.step)))
      ]

  update-OwnOnly : (id : Text) (input : UpdateInput) → Leaves (Repository.update org id input db).1
  unfolding Repository.update
  update-OwnOnly id input =
      let key = db.server.parse_uuid (trim_space org) in
      let o = trim_space org in
      let i = trim_space id in
      elim (Bool-cases (is_empty o || is_empty i)) [
        | inl refused ↦ rw refused (unchanged db.tables key)
        | inr accepted ↦ elim (Option-cases (build o i input)) [
          | inl rejected ↦ rw (accepted, rejected) (unchanged db.tables key)
          | inr (b, built) ↦
              rw (accepted, built)
                (uuids-OwnOnly o i (update_customer b) db (λ k j.
                  update_customer-OwnOnly db.tables b k j db.server db.step
                    (keeps_owner o i input b db.server db.step built)))
        ]
      ]

  delete-OwnOnly : (id : Text) → Leaves (Repository.delete org id db).1
  unfolding Repository.delete
  delete-OwnOnly id =
      uuids-OwnOnly (trim_space org) (trim_space id) delete_customer db
        (λ o i. delete_customer-OwnOnly db.tables o i db.server db.step)

  -- No call writes a customer of another organization than the one it is given, or any other table,
  -- whatever becomes of the statement; given a text that is no key, it writes nothing of anyone.
  pub perform-OwnOnly : (call : Call) → Leaves (perform org call db)
  unfolding perform
  perform-OwnOnly Call.list = list-OwnOnly
  perform-OwnOnly (Call.get id) = get-OwnOnly id
  perform-OwnOnly (Call.create input) = create-OwnOnly input
  perform-OwnOnly (Call.update id input) = update-OwnOnly id input
  perform-OwnOnly (Call.delete id) = delete-OwnOnly id
