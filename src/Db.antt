-- ===== src/Db.antt =====
-- The PostgreSQL side that the repositories talk to: the tables of db/migrations, and what is
-- asked of the server. Each SQL statement of a repository is a function on the tables; how a
-- statement reaches the server, and how it can fail on the way, is here.
mod Rows
mod Errors
pub mod Table
pub mod Keyed
pub mod Nullable
pub mod Builder
pub mod Answers
pub mod Uuid
pub mod Order
pub mod Frame
pub mod Tenant
pub use Rows.*
pub use Errors.*
use tecora_be.Prelude.{ℕ, ◌+◌, Bool, List, Option, none, some}
use tecora_be.Text.{Text}

-- What can befall the n-th statement: nothing; the connection fails before the server has run it;
-- the server has run it, and the answer is lost.
pub data Fault : Type 0 where
  sound lost_request lost_answer : Fault

-- What the server supplies. `now n` is `NOW()` in the n-th statement and `gen_random_uuid n` the
-- key that the n-th statement's row gets, `parse_uuid` reads a text as a UUID in its canonical
-- form, `decode` a text of the wire as UTF-8, and `collate_le` is the order of the database's collation.
-- `is_simple` says that the connection string asks pgx for the simple protocol, which writes the
-- arguments into the statement; by default pgx prepares the statement with its parameters.
pub record Server : Type 0 where
  pub now : ℕ → ℕ
  pub gen_random_uuid : ℕ → Text
  pub parse_uuid : Text → Option Text
  pub decode : List ℕ → Option Text
  pub is_simple : Bool
  pub collate_le : Text → Text → Bool
  pub fault : ℕ → Fault

pub record Tables : Type 0 where
  pub organizations : List OrganizationRow
  pub users : List UserRow
  pub customers : List CustomerRow
  pub acceptances : List AcceptanceRow
  pub work_orders : List WorkOrderRow

-- `step` counts the statements sent so far.
pub record Db : Type 0 where
  pub server : Server
  pub step : ℕ
  pub tables : Tables

-- A call on the database that returns a Go value or an error.
abbrev pub Action : Type 0 → Type 0
Action A = Db → Result A × Db

-- The effect of one SQL statement, the `step`-th that the server gets.
abbrev pub Statement : Type 0 → Type 0
Statement A = Server → ℕ → Tables → Result A × Tables

module _ {A : Type 0} where
  abbrev pub answer : Fault → Result A × Tables → Action A
  answer sound (r, t) db = (r, record db { step = db.step + 1; tables = t })
  answer lost_request _ db = (err (database failure), record db { step = db.step + 1 })
  answer lost_answer (_, t) db =
      (err (database failure), record db { step = db.step + 1; tables = t })

  -- `QueryRow` and `Query`, with the scan of the answer
  abbrev pub query : Statement A → Action A
  query stmt db = answer (db.server.fault db.step) (stmt db.server db.step db.tables) db

  -- A statement with RETURNING, or a SELECT, whose WHERE found the row or found none: `t'` are the
  -- tables after it.
  abbrev pub returning : {R : Type 0} → Option R → (R → A) → Tables → Tables → Result A × Tables
  returning none f t t' = (err (database no_rows), t)
  returning (some r) f t t' = (ok (f r), t')

  pub returning_keeps {κ} :
      {R : Type 0} (P : Tables → Type κ) (found : Option R) (f : R → A) (t t' : Tables)
      → P t
      → P t'
      → P (returning found f t t').1
  returning_keeps P none f t t' old new = old
  returning_keeps P (some r) f t t' old new = new

  -- What the tables satisfy before a statement and after it, they satisfy after the call.
  pub query_keeps {κ} :
      (P : Tables → Type κ) (stmt : Statement A) (db : Db)
      → P db.tables
      → P (stmt db.server db.step db.tables).1
      → P (query stmt db).1.tables
  query_keeps P stmt db before after = go (db.server.fault db.step)
    where
      go : (f : Fault) → P (answer f (stmt db.server db.step db.tables) db).1.tables
      go sound = after
      go lost_request = before
      go lost_answer = after

-- The Go value of an answer, and the error that the method returns in place of the driver's.
abbrev pub finish : {R A : Type 0} → (Error → Error) → (R → A) → Result R × Db → Result A × Db
finish translate scan (r, db) = (map_ok scan (map_err translate r), db)
