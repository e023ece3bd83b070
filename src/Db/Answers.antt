-- ===== src/Db/Answers.antt =====
-- What a successful call on the database says of the statement that it sent.
use tecora_be.Prelude.{◌≡◌, refl, Option, none, some}
use tecora_be.Db.{
  Tables, Db, Statement, query, returning, finish, Result, ok, err, Fault, sound, lost_request,
  lost_answer, answer, Error, map_ok, map_err,
}

answer_ok :
    {A : Type 0} (f : Fault) (r : Result A × Tables) (db : Db) (a : A)
    → (answer f r db).0 ≡ ok a
    → (r.0 ≡ ok a) × ((answer f r db).1.tables ≡ r.1)
answer_ok sound r db a h = (h, refl)
answer_ok lost_request r db a h = cc
answer_ok lost_answer r db a h = cc

map_ok_inv :
    {R A : Type 0} (translate : Error → Error) (scan : R → A) (r : Result R) (a : A)
    → map_ok scan (map_err translate r) ≡ ok a
    → (x : R) × (r ≡ ok x) × (a ≡ scan x)
map_ok_inv translate scan (ok x) a h = (x, refl, cc)
map_ok_inv translate scan (err e) a h = cc

-- A call that succeeds has been answered, the statement found its row, and the tables are those that
-- the statement left.
pub finish_ok :
    {R A : Type 0} (translate : Error → Error) (scan : R → A) (stmt : Statement R) (db : Db) (a : A)
    → (finish translate scan (query stmt db)).0 ≡ ok a
    → (x : R) × ((stmt db.server db.step db.tables).0 ≡ ok x)
      × (a ≡ scan x)
      × ((query stmt db).1.tables ≡ (stmt db.server db.step db.tables).1)
finish_ok translate scan stmt db a h =
    let (x, e, same) = map_ok_inv translate scan (query stmt db).0 a h in
    let (told, kept) =
      answer_ok (db.server.fault db.step) (stmt db.server db.step db.tables) db x e in
    (x, told, same, kept)

pub returning_ok :
    {R A : Type 0} (found : Option R) (f : R → A) (t t' : Tables) (a : A)
    → (returning found f t t').0 ≡ ok a
    → (r : R) × (found ≡ some r) × (a ≡ f r) × ((returning found f t t').1 ≡ t')
returning_ok none f t t' a h = cc
returning_ok (some r) f t t' a h = (r, refl, cc, refl)

-- A call does not change the server, and counts as one statement.
pub query_server :
    {R : Type 0} (stmt : Statement R) (db : Db) → (query stmt db).1.server ≡ db.server
query_server stmt db = go (db.server.fault db.step)
  where
    go : (f : Fault) → (answer f (stmt db.server db.step db.tables) db).1.server ≡ db.server
    go sound = refl
    go lost_request = refl
    go lost_answer = refl

-- An answered call gives what the statement gives.
pub query-sound :
    {R : Type 0} (stmt : Statement R) (db : Db)
    → db.server.fault db.step ≡ sound
    → (query stmt db).0 ≡ (stmt db.server db.step db.tables).0
query-sound stmt db h = rw h refl
