-- ===== src/Users/Handler/Updates.antt =====
-- What the `Update` of internal/users/handler.go hands to the repository: its own tests leave nothing
-- for the tests of `Update` in internal/users/repository.go to refuse.
use tecora_be.Prelude.{
  ℕ, String, ◌≡◌, ◌≢◌, refl, inl, inr, Bool, true, false, not, ◌&&◌, ◌||◌, Option, none, some,
  arith, is_empty, if◌then◌else◌, Bool-cases, Option-cases,
}
use tecora_be.Text.{Text, trim_space}
use tecora_be.Http.{Response, reply_error, text-ne, reply_error-ne}
use tecora_be.Db.{
  UserRow, Package, Error, invalid_input, database, no_rows, pg_error, failure, Result, ok, err,
  Tables, Db, Server, Fault, sound, lost_request, lost_answer, answer, query, returning, map_ok,
  map_err,
}
use tecora_be.Db.Table.{update_where}
use tecora_be.Db.Nullable.{NullableString, present, trimmed, unset, of_text}
use tecora_be.Db.Builder.{Builder}
use tecora_be.Organizations.Slug.{normalize_slug}
use tecora_be.Organizations.Model.{Organization}
use tecora_be.Organizations.Repository
use tecora_be.Users.Model.{User, UpdateInput, scan_user}
use tecora_be.Users.Repository.{
  Column, build, update, update_user, change_found, joined, join_organization, translate_row_error,
  has_organization, is_readable,
}
use tecora_be.Users.Repository.Change.{build-eq-none_iff}
use tecora_be.Users.Handler
use tecora_be.Users.Body.{
  UpdateBody, UpdateRequest, Checked, fine, bad, check_fields, update_field, bind_update,
}
use tecora_be.Users.Handler.{
  update_input, update_to, update_checked, respond, write_error, write_org_error,
}

-- The error comes from the database.
abbrev IsForeign : {A : Type 0} → Result A → Type 0
IsForeign (ok a) = Unit
IsForeign (err (database d)) = Unit
IsForeign (err _) = ⊥

returning-IsForeign :
    {R A : Type 0} (found : Option R) (f : R → A) (t t' : Tables)
    → IsForeign (returning found f t t').0
returning-IsForeign none f t t' = tt
returning-IsForeign (some r) f t t' = tt

joined-IsForeign : (found : Option UserRow) (t t' : Tables) → IsForeign (joined found t t').0
joined-IsForeign none t t' = tt
joined-IsForeign (some u) t t' = returning-IsForeign (join_organization t' u) (λ p. p) t t

change_found-IsForeign :
    (found : Option UserRow) (change : UserRow → UserRow) (chosen : UserRow → Bool) (t : Tables)
    → IsForeign (change_found found change chosen t).0
change_found-IsForeign none change chosen t = tt
change_found-IsForeign (some u) change chosen t =
    elim (Bool-cases (has_organization (change u).organization_id t)) [
      | inl there ↦ rw there (
          joined-IsForeign (some (change u)) t
            (record t { users = update_where chosen change t.users }))
      | inr missing ↦ rw missing tt
    ]

update_user-IsForeign :
    (k : Text) (b : Builder Column) (sv : Server) (n : ℕ) (t : Tables)
    → IsForeign (update_user k b sv n t).0
unfolding update_user
update_user-IsForeign k b sv n t = elim (Bool-cases (is_readable sv b.args b.clauses)) [
  | inl reads ↦ rw reads (change_found-IsForeign _ _ _ t)
  | inr unread ↦ rw unread tt
]

answer-IsForeign :
    {A : Type 0} (f : Fault) (r : Result A × Tables) (db : Db)
    → IsForeign r.0
    → IsForeign (answer f r db).0
answer-IsForeign sound r db h = h
answer-IsForeign lost_request r db h = tt
answer-IsForeign lost_answer r db h = tt

translated :
    {A B : Type 0} (scan : A → B) (r : Result A)
    → IsForeign r
    → map_ok scan (map_err translate_row_error r) ≢ err (invalid_input Package.users)
unfolding translate_row_error
translated scan (ok a) h = cc
translated scan (err (database no_rows)) h = cc
translated scan (err (database (pg_error code))) h = cc
translated scan (err (database failure)) h = cc
translated scan (err _) h = absurd h

-- The repository's `Update` refuses no input of which it builds a statement.
update_accepts :
    (k : Text) (input : UpdateInput) (db : Db)
    → build k input ≢ none
    → (update k input db).0 ≢ err (invalid_input Package.users)
unfolding update
update_accepts k input db h = elim (Option-cases (build k input)) [
  | inl refused ↦ absurd (h refused)
  | inr (b, built) ↦ rw built (
      translated scan_user (query (update_user k b) db).0 (
        answer-IsForeign (db.server.fault db.step) (update_user k b db.server db.step db.tables) db
          (update_user-IsForeign k b db.server db.step db.tables)))
]

if_ne :
    {A : Type 0} (b : Bool) (x y : Response A × Db) (z : Response A)
    → (b ≡ true → x.0 ≢ z)
    → (b ≡ false → y.0 ≢ z)
    → (if b then x else y).0 ≢ z
if_ne true x y z hx hy = hx refl
if_ne false x y z hx hy = hy refl

respond_ne :
    {A : Type 0} (status : ℕ) (r : Result A × Db)
    → r.0 ≢ err (invalid_input Package.users)
    → (respond status r).0 ≢ reply_error 400 "invalid user input"
unfolding write_error
respond_ne status (ok a, db) h = cc
respond_ne status (err e, db) h = ground arith

-- Each checked field is set exactly if the body has it.
update_field_set : (f g : NullableString) → update_field f ≡ some g → g.set ≡ f.set
unfolding update_field
update_field_set f g h = ground arith

check_fields_inv :
    (req : UpdateRequest) (e f l : NullableString)
    → check_fields req ≡ fine e f l
    → (e.set ≡ req.email.set) × (f.set ≡ req.first_name.set) × (l.set ≡ req.last_name.set)
unfolding check_fields
check_fields_inv req e f l h = elim (Option-cases (update_field req.email)) [
  | inl bad_email ↦ ground arith
  | inr (e', he) ↦ elim (Option-cases (update_field req.first_name)) [
    | inl bad_name ↦ ground arith
    | inr (f', hf) ↦ elim (Option-cases (update_field req.last_name)) [
      | inl bad_last ↦ ground arith
      | inr (l', hl) ↦
          let se = update_field_set req.email e' he in
          let sf = update_field_set req.first_name f' hf in
          let sl = update_field_set req.last_name l' hl in
          (ground arith, ground arith, ground arith)
    ]
  ]
]

check_fields_message :
    (req : UpdateRequest) (m : String) → check_fields req ≡ bad m → m ≢ "invalid user input"
unfolding check_fields
check_fields_message req m h e = elim (Option-cases (update_field req.email)) [
  | inl bad_email ↦ text-ne "invalid email" "invalid user input" refl (ground arith)
  | inr (e', he) ↦ elim (Option-cases (update_field req.first_name)) [
    | inl bad_name ↦ text-ne "invalid first name" "invalid user input" refl (ground arith)
    | inr (f', hf) ↦ elim (Option-cases (update_field req.last_name)) [
      | inl bad_last ↦ text-ne "invalid last name" "invalid user input" refl (ground arith)
      | inr (l', hl) ↦ ground arith
    ]
  ]
]

build_of_set :
    (k : Text) (e f l o : NullableString)
    → o.set && o.null ≡ false
    → e.set || (f.set || (l.set || o.set)) ≡ true
    → build k (update_input e f l o) ≢ none
build_of_set k e f l o open_org some_set h =
    let sides = (build-eq-none_iff k (update_input e f l o)).0 h in ground arith

write_org_error_ne :
    {A : Type 0} (e : Error) → write_org_error {A = A} e ≢ reply_error 400 "invalid user input"
unfolding write_org_error
write_org_error_ne e h = ground arith

module _ (fold : ℕ → ℕ) where
  update_to_ne :
      (k : Text) (e f l : NullableString) (r : Result Organization × Db)
      → (update_to k e f l r).0 ≢ reply_error 400 "invalid user input"
  unfolding update_to
  update_to_ne k e f l (err x, db) = write_org_error_ne x
  update_to_ne k e f l (ok org, db) =
      respond_ne 200 (update k (update_input e f l (of_text org.id)) db) (
        update_accepts k (update_input e f l (of_text org.id)) db
          (build_of_set k e f l (of_text org.id) refl (ground arith)))

  update_checked_ne :
      (k : Text) (req : UpdateRequest) (c : Checked) (db : Db)
      → check_fields req ≡ c
      → req.email.set || (req.first_name.set || (req.last_name.set || req.organization_slug.set))
        ≡ true
      → (update_checked fold k req c db).0 ≢ reply_error 400 "invalid user input"
  unfolding update_checked
  update_checked_ne k req (bad message) db h some_set =
      ground (arith, check_fields_message req message)
  update_checked_ne k req (fine e f l) db h some_set =
      let same = check_fields_inv req e f l h in
      if_ne (not req.organization_slug.set) _ _ _
        (λ absent. respond_ne 200 (update k (update_input e f l unset) db) (
          update_accepts k (update_input e f l unset) db
            (build_of_set k e f l unset refl (ground arith))))
        (λ given.
          if_ne _ _ _ _
            (λ _. reply_error-ne 400 400 "invalid organization slug" "invalid user input" refl)
            (λ _.
              update_to_ne k e f l
                (Repository.get_by_slug (normalize_slug fold (trimmed req.organization_slug)) db)))

  -- No request makes `Update` of the handler pass on an input that the repository's `Update` refuses:
  -- the answer is never 400 with "invalid user input".
  pub update-ne-refused :
      (param : Text) (body : Option UpdateBody) (db : Db)
      → (Handler.update fold param body db).0 ≢ reply_error 400 "invalid user input"
  unfolding Handler.update
  update-ne-refused param body db =
      if_ne (is_empty (trim_space param)) _ _ _
        (λ _. reply_error-ne 400 400 "invalid clerk user id" "invalid user input" refl)
        (λ _. read (bind_update body))
    where
      read :
          (r : Option UpdateRequest)
          → (elim r as (λ _. Response User × Db) [
            | none ↦ (reply_error 400 "invalid json body", db)
            | some req ↦
                if not (present req.email)
                  && not (present req.first_name)
                  && not (present req.last_name)
                  && not (present req.organization_slug)
                then (reply_error 400 "at least one field must be provided", db)
                else update_checked fold (trim_space param) req (check_fields req) db
          ]).0
            ≢ reply_error 400 "invalid user input"
      read none = reply_error-ne 400 400 "invalid json body" "invalid user input" refl
      read (some req) =
          if_ne _ _ _ _
            (λ _.
              reply_error-ne 400 400 "at least one field must be provided" "invalid user input"
                refl)
            (λ set.
              update_checked_ne (trim_space param) req (check_fields req) db refl (ground arith))
