-- ===== src/Customers/Repository/Change.antt =====
-- The SET clause that `Update` of internal/customers/repository.go builds, against the change that its
-- input describes.
use tecora_be.Prelude.{
  ℕ, ◌≡◌, ◌↔◌, ◌⊎◌, refl, ap, ◌∙◌, true, false, Option, none, some, arith, Bool-cases, Option-cases,
  inl, inr, is_empty, if◌then◌else◌,
}
use tecora_be.Text.{Text, trim_space}
use tecora_be.Db.{CustomerRow, Server}
use tecora_be.Db.Nullable.{NullableString, trimmed}
use tecora_be.Db.Builder.{
  Builder, IsNumbered, add_clause, add_nullable, add_clause-IsNumbered, add_nullable-IsNumbered,
  run, set_columns, run-add_clause, run-add_nullable, given_value,
}
use tecora_be.Customers.Model.{UpdateInput, validate_name}
use tecora_be.Customers.Repository.{
  Column, name, email, phone, address, notes, start, add_name, add_texts, build, assign,
  change_customer,
}

-- The change that a field describes.
abbrev pub field_or : NullableString → Option Text → Option Text
field_or f old = if f.set then given_value f else old

-- The row that an input asks for.
unfoldable pub wanted : UpdateInput → Server → ℕ → CustomerRow → CustomerRow
wanted input sv n c = record c {
  name = if input.name.set then trimmed input.name else c.name;
  email = field_or input.email c.email;
  phone = field_or input.phone c.phone;
  address = field_or input.address c.address;
  notes = field_or input.notes c.notes;
  updated_at = sv.now n;
}

start-IsNumbered : (org id : Text) → IsNumbered (start org id)
unfolding start
start-IsNumbered org id = record { next = omega arith; in_range = tt }

run-start : (org id : Text) (c : CustomerRow) → run assign (start org id) c ≡ c
unfolding start set_columns
run-start org id c = refl

-- What the test of the name leaves.
named :
    (org id : Text) (input : UpdateInput) (b : Builder Column) (c : CustomerRow)
    → add_name input.name (start org id) ≡ some b
    → IsNumbered b
      × (run assign b c ≡ record c { name = if input.name.set then trimmed input.name else c.name })
unfolding add_name
named org id input b c h =
    let s = start org id in
    let w = start-IsNumbered org id in
    let raw = some (trimmed input.name) in
    elim (Bool-cases input.name.set) [
      | inr unset ↦ let same : s ≡ b = ground arith in rw (← same, unset) (w, run-start org id c)
      | inl set ↦
          let same : add_clause name raw s ≡ b = ground arith in
          rw (← same, set)
            (
              add_clause-IsNumbered name s w raw,
              run-add_clause assign s name raw c w
                  ∙ (unfold assign in ap (assign name raw) (run-start org id c)),
            )
    ]

module _ (input : UpdateInput) (b : Builder Column) (w : IsNumbered b) (c : CustomerRow) where
  run-add_texts : run assign (add_texts input b) c ≡ (
      let d = run assign b c in
      record d {
        email = field_or input.email d.email;
        phone = field_or input.phone d.phone;
        address = field_or input.address d.address;
        notes = field_or input.notes d.notes;
      })
  unfolding add_texts assign
  run-add_texts =
      let b1 = add_nullable email input.email b in
      let w1 = add_nullable-IsNumbered email b w input.email in
      let b2 = add_nullable phone input.phone b1 in
      let w2 = add_nullable-IsNumbered phone b1 w1 input.phone in
      let b3 = add_nullable address input.address b2 in
      let w3 = add_nullable-IsNumbered address b2 w2 input.address in
      rw
        (
          run-add_nullable assign notes input.notes b3 c w3,
          run-add_nullable assign address input.address b2 c w2,
          run-add_nullable assign phone input.phone b1 c w1,
          run-add_nullable assign email input.email b c w,
        )
        (ground arith)

-- If `Update` builds a statement, its numbered clauses and arguments make exactly the change that the
-- input describes: a column that is not set keeps its value, one set to null is cleared, any other
-- takes the trimmed text.
pub change_customer-build :
    (org id : Text) (input : UpdateInput) (b : Builder Column) (sv : Server) (n : ℕ)
    (c : CustomerRow)
    → build org id input ≡ some b
    → change_customer b sv n c ≡ wanted input sv n c
unfolding build change_customer wanted
change_customer-build org id input b sv n c h =
    elim (Option-cases (add_name input.name (start org id))) [
      | inl refused ↦ ground arith
      | inr (base, e) ↦
          let same : add_texts input base ≡ b = ground arith in
          let (w, texts) = named org id input base c e in
          rw (← same, run-add_texts input base w c, texts) refl
    ]

-- `Update` refuses an input exactly if it sets the name to null or to a blank text, or sets nothing.
pub build-eq-none_iff :
    (org id : Text) (input : UpdateInput)
    → (build org id input ≡ none) ↔ (
        ((input.name.set ≡ true)
          × ((input.name.null ≡ true) ⊎ (is_empty (trim_space (trimmed input.name)) ≡ true)))
        ⊎ ((input.name.set ≡ false)
            × (input.email.set ≡ false)
            × (input.phone.set ≡ false)
            × (input.address.set ≡ false)
            × (input.notes.set ≡ false)))
unfolding build add_name add_texts add_nullable add_clause start validate_name
build-eq-none_iff org id input = ground arith
