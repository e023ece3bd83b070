-- ===== src/Db/Uuid.antt =====
-- A parameter of a statement that the server casts to UUID.
use tecora_be.Prelude.{◌≡◌, refl, ℕ, Option, none, some}
use tecora_be.Text.{Text, codes}
use tecora_be.Db.{Server, Tables, Statement, pg_error, database, ok, err}

-- A UUID parameter that the server cannot read is error 22P02.
unfoldable pub with_uuid : {A : Type 0} → Option Text → (Text → Statement A) → Statement A
with_uuid none f sv n t = (err (database (pg_error (codes "22P02"))), t)
with_uuid (some id) f sv n t = f id sv n t

pub with_uuid_keeps {κ} :
    {A : Type 0} (P : Tables → Type κ) (id : Option Text) (f : Text → Statement A) (sv : Server)
    (n : ℕ) (t : Tables)
    → P t
    → ((i : Text) → P (f i sv n t).1)
    → P (with_uuid id f sv n t).1
unfolding with_uuid
with_uuid_keeps P none f sv n t old new = old
with_uuid_keeps P (some i) f sv n t old new = new i

pub with_uuid_ok :
    {A : Type 0} (id : Option Text) (f : Text → Statement A) (sv : Server) (n : ℕ) (t : Tables)
    (a : A)
    → (with_uuid id f sv n t).0 ≡ ok a
    → (i : Text) × (id ≡ some i) × ((f i sv n t).0 ≡ ok a)
unfolding with_uuid
with_uuid_ok none f sv n t a h = cc
with_uuid_ok (some i) f sv n t a h = (i, refl, h)
