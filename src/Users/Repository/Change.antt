-- ===== src/Users/Repository/Change.antt =====
-- The SET clause that `Update` builds, against the change that its input describes.
use tecora_be.Prelude.{
  ℕ, ◌≡◌, ◌↔◌, ◌⊎◌, refl, true, false, Option, none, some, arith, Bool-cases, inl, inr,
  if◌then◌else◌,
}
use tecora_be.Text.{Text}
use tecora_be.Db.{UserRow, Server}
use tecora_be.Db.Nullable.{NullableString, trimmed}
use tecora_be.Db.Builder.{
  Builder, IsNumbered, add_clause, add_nullable, add_nullable-IsNumbered, run, set_columns,
  run-add_clause, run-add_nullable,
}
use tecora_be.Users.Model.{UpdateInput}
use tecora_be.Users.Repository.{
  Column, email, first_name, last_name, organization_id, start, add_texts, build, assign, keep_or,
  change_user,
}

-- The change that an input describes, column by column.
abbrev pub field_or : NullableString → Option Text → Option Text
field_or f old = if f.set then (if f.null then none else some (trimmed f)) else old

-- The row that an input asks for.
unfoldable pub wanted : Server → ℕ → UpdateInput → UserRow → UserRow
wanted sv n input u = record u {
  email = field_or input.email u.email;
  first_name = field_or input.first_name u.first_name;
  last_name = field_or input.last_name u.last_name;
  organization_id =
      if input.organization_id.set
      then keep_or u.organization_id (sv.parse_uuid (trimmed input.organization_id))
      else u.organization_id;
  updated_at = sv.now n;
}

start-IsNumbered : (k : Text) → IsNumbered (start k)
unfolding start
start-IsNumbered k = record { next = omega arith; in_range = tt }

run-start : (sv : Server) (k : Text) (u : UserRow) → run (assign sv) (start k) u ≡ u
unfolding start set_columns
run-start sv k u = refl

module _ (sv : Server) (input : UpdateInput) (k : Text) where
  add_texts-IsNumbered : IsNumbered (add_texts input (start k))
  unfolding add_texts
  add_texts-IsNumbered =
      add_nullable-IsNumbered last_name _
        (add_nullable-IsNumbered first_name _
          (add_nullable-IsNumbered email (start k) (start-IsNumbered k) input.email)
          input.first_name)
        input.last_name

  run-add_texts :
      (u : UserRow)
      → run (assign sv) (add_texts input (start k)) u ≡ record u {
        email = field_or input.email u.email;
        first_name = field_or input.first_name u.first_name;
        last_name = field_or input.last_name u.last_name;
      }
  unfolding add_texts assign
  run-add_texts u =
      let w0 = start-IsNumbered k in
      let w1 = add_nullable-IsNumbered email (start k) w0 input.email in
      let b1 = add_nullable email input.email (start k) in
      let w2 = add_nullable-IsNumbered first_name b1 w1 input.first_name in
      let b2 = add_nullable first_name input.first_name b1 in
      rw
        (
          run-add_nullable (assign sv) last_name input.last_name b2 u w2,
          run-add_nullable (assign sv) first_name input.first_name b1 u w1,
          run-add_nullable (assign sv) email input.email (start k) u w0,
          run-start sv k u,
        )
        (ground arith)

  -- If `Update` builds a statement, its numbered clauses and arguments make exactly the change that
  -- the input describes: a column that is not set keeps its value, one set to null is cleared, any
  -- other takes the trimmed text, and the organization takes the key that the text stands for.
  pub build-wanted :
      (n : ℕ) (b : Builder Column) (u : UserRow)
      → build k input ≡ some b
      → change_user sv n b u ≡ wanted sv n input u
  unfolding build change_user wanted
  build-wanted n b u h =
      let base = add_texts input (start k) in
      let raw = some (trimmed input.organization_id) in
      let step = run-add_clause (assign sv) base organization_id raw u add_texts-IsNumbered in
      let text = run-add_texts u in
      elim (Bool-cases input.organization_id.set) [
        | inr unset ↦ let same : base ≡ b = ground arith in rw (← same, text) (ground arith)
        | inl set ↦
            let same : add_clause organization_id raw base ≡ b = ground arith in
            rw (← same, step, text) (unfold assign in (ground arith))
      ]

-- `Update` refuses an input exactly if it sets the organization to null or sets nothing.
pub build-eq-none_iff :
    (k : Text) (input : UpdateInput)
    → (build k input ≡ none) ↔ (
        ((input.organization_id.set ≡ true) × (input.organization_id.null ≡ true))
        ⊎ ((input.email.set ≡ false)
            × (input.first_name.set ≡ false)
            × (input.last_name.set ≡ false)
            × (input.organization_id.set ≡ false)))
unfolding build add_texts add_nullable add_clause start
build-eq-none_iff k input = ground arith
