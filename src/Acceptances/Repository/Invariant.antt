-- ===== src/Acceptances/Repository/Invariant.antt =====
-- What the acceptances table satisfies at all times, and what a caller is shown of it.
use tecora_be.Prelude.{
  ℕ, ◌≡◌, refl, ◌∙◌, Bool, true, false, ◌||◌, List, [], ◌∷◌, ◌++◌, Option, none, some, arith, any,
  All, All-append, Bool-cases, inl, inr, if◌then◌else◌,
}
use tecora_be.Text.{Text, text_eq, trim_space}
use tecora_be.Db.{AcceptanceRow, PdfStatus, Server, Tables, Db, query_keeps, returning_keeps}
use tecora_be.Db.Table.{select_first, update_where, update_where-All}
use tecora_be.Db.Uuid.{with_uuid_keeps}
use tecora_be.Db.Keyed.{any-append, IsUnique, update_where-IsUnique, append-IsUnique}
use tecora_be.Acceptances.Model.{CreateInput}
use tecora_be.Acceptances.Repository.{
  is_record, is_for_work_order, new_record, insert_record, insert, create, change_record,
  set_generated, mark_pdf_generated, set_failed, fail_stored, fail_record, mark_pdf_failed,
  truncate_error,
}

abbrev pub IsSome : {A : Type 0} → Option A → Type 0
IsSome none = ⊥
IsSome (some _) = Unit

-- What the other columns say of each status of the document.
abbrev pub MatchesStatus : PdfStatus → AcceptanceRow → Type 0
MatchesStatus PdfStatus.pending r =
    (r.pdf_storage_key ≡ none) × (r.pdf_generated_at ≡ none) × (r.pdf_error ≡ none)
MatchesStatus PdfStatus.generated r =
    IsSome r.pdf_storage_key
    × IsSome r.pdf_mime_type
    × IsSome r.pdf_generated_at
    × (r.pdf_error ≡ none)
MatchesStatus PdfStatus.failed r = IsSome r.pdf_error

abbrev pub IsCoherent : Tables → AcceptanceRow → Type 0
IsCoherent t r =
    MatchesStatus r.pdf_status r
    × (any (λ o. text_eq o.id r.organization_id) t.organizations ≡ true)

-- No row before another is for the same work order of the same organization.
abbrev pub IsOnePerOrder : List AcceptanceRow → Type 0
IsOnePerOrder [] = Unit
IsOnePerOrder (r ∷ rows) =
    (any (λ x. is_for_work_order x.organization_id x.work_order_id r) rows ≡ false)
    × IsOnePerOrder rows

pub record IsValid (t : Tables) : Type 0 where
  pub ids : IsUnique (λ r. r.id) t.acceptances
  pub orders : IsOnePerOrder t.acceptances
  pub coherent : All (IsCoherent t) t.acceptances

-- Changes that leave the key, the organization and the work order alone.
pub record Spares (f : AcceptanceRow → AcceptanceRow) : Type 0 where
  pub id : (r : AcceptanceRow) → (f r).id ≡ r.id
  pub organization : (r : AcceptanceRow) → (f r).organization_id ≡ r.organization_id
  pub order : (r : AcceptanceRow) → (f r).work_order_id ≡ r.work_order_id

abbrev is_same_order : AcceptanceRow → AcceptanceRow → Bool
is_same_order r x = is_for_work_order x.organization_id x.work_order_id r

same_order_update :
    (p : AcceptanceRow → Bool) (f : AcceptanceRow → AcceptanceRow) (r r' : AcceptanceRow)
    (rows : List AcceptanceRow)
    → Spares f
    → r'.organization_id ≡ r.organization_id
    → r'.work_order_id ≡ r.work_order_id
    → any (is_same_order r') (update_where p f rows) ≡ any (is_same_order r) rows
unfolding update_where
same_order_update p f r r' [] k ho hw = refl
same_order_update p f r r' (x ∷ rows) k ho hw =
    ground (arith, k.organization x, k.order x, same_order_update p f r r' rows k)

update-IsOnePerOrder :
    (p : AcceptanceRow → Bool) (f : AcceptanceRow → AcceptanceRow) (rows : List AcceptanceRow)
    → Spares f
    → IsOnePerOrder rows
    → IsOnePerOrder (update_where p f rows)
unfolding update_where
update-IsOnePerOrder p f [] k u = tt
update-IsOnePerOrder p f (r ∷ rows) k u = (
  same_order_update p f r (if p r then f r else r) rows k (ground (arith, k.organization r))
        (ground (arith, k.order r))
      ∙ u.0,
  update-IsOnePerOrder p f rows k u.1,
)

append-IsOnePerOrder :
    (rows : List AcceptanceRow) (x : AcceptanceRow)
    → any (is_for_work_order x.organization_id x.work_order_id) rows ≡ false
    → IsOnePerOrder rows
    → IsOnePerOrder (rows ++ x ∷ [])
append-IsOnePerOrder [] x new u = (refl, tt)
append-IsOnePerOrder (r ∷ rows) x new u = (
  ground (arith, any-append (is_same_order r) rows x),
  append-IsOnePerOrder rows x (ground arith) u.1,
)

-- What a change of a row must keep, beside the columns that it spares.
abbrev KeepsStatus : (AcceptanceRow → AcceptanceRow) → Type 0
KeepsStatus f =
    (r : AcceptanceRow) → MatchesStatus r.pdf_status r → MatchesStatus (f r).pdf_status (f r)

module _ (sv : Server) (n : ℕ) (t : Tables) (v : IsValid t) where
  insert_record-IsValid :
      (input : CreateInput) (org : Text) → IsValid (insert_record input org sv n t).1
  unfolding insert_record
  insert_record-IsValid input org =
      let row = new_record input org sv n in
      elim (Bool-cases (
        any (λ r. text_eq r.id row.id) t.acceptances
        || any (is_for_work_order row.organization_id row.work_order_id) t.acceptances)) [
          | inl taken ↦ rw taken v
          | inr free ↦ elim (Bool-cases (any (λ o. text_eq o.id org) t.organizations)) [
            | inr missing ↦ rw (free, missing) v
            | inl there ↦
                rw (free, there)
                  (record {
                    ids =
                        append-IsUnique (λ (r : AcceptanceRow). r.id) t.acceptances row
                          (ground arith) v.ids;
                    orders = append-IsOnePerOrder t.acceptances row (ground arith) v.orders;
                    coherent =
                        All-append (IsCoherent t) t.acceptances (row ∷ []) v.coherent
                          (unfold new_record in (((refl, refl, refl), there), tt));
                  })
          ]
        ]

  insert_IsValid : (input : CreateInput) → IsValid (insert input sv n t).1
  unfolding insert
  insert_IsValid input =
      with_uuid_keeps IsValid (sv.parse_uuid (trim_space input.organization_id))
        (insert_record input) sv n t v (λ org. insert_record-IsValid input org)

  change_all_IsValid :
      (p : AcceptanceRow → Bool) (f : AcceptanceRow → AcceptanceRow)
      → Spares f
      → KeepsStatus f
      → IsValid (record t { acceptances = update_where p f t.acceptances })
  change_all_IsValid p f k c = record {
    ids = update_where-IsUnique (λ (r : AcceptanceRow). r.id) p f t.acceptances k.id v.ids;
    orders = update-IsOnePerOrder p f t.acceptances k v.orders;
    coherent =
        update_where-All (IsCoherent t) p f t.acceptances
          (λ r _ h. (c r h.0, rw (k.organization r) h.1)) v.coherent;
  }

  change_IsValid :
      (org id : Text) (change : ℕ → AcceptanceRow → AcceptanceRow)
      → Spares (change (sv.now n))
      → KeepsStatus (change (sv.now n))
      → IsValid (change_record org id change sv n t).1
  unfolding change_record
  change_IsValid org id change k c = with_uuid_keeps IsValid (sv.parse_uuid org) _ sv n t v (λ o.
      with_uuid_keeps IsValid (sv.parse_uuid id) _ sv n t v (λ i.
        let rows = update_where (is_record o i) (change (sv.now n)) t.acceptances in
        returning_keeps IsValid (select_first (is_record o i) t.acceptances) (change (sv.now n)) t
          (record t { acceptances = rows }) v
          (change_all_IsValid (is_record o i) (change (sv.now n)) k c)))

  generate_IsValid :
      (org id key mime : Text) → IsValid (change_record org id (set_generated key mime) sv n t).1
  generate_IsValid org id key mime =
      change_IsValid org id (set_generated key mime)
        (unfold set_generated in
          (record { id = λ _. refl; organization = λ _. refl; order = λ _. refl }))
        (unfold set_generated in (λ _ _. (tt, tt, tt, refl)))

  fail_IsValid : (org id message : Text) → IsValid (fail_record org id message sv n t).1
  unfolding fail_record
  fail_IsValid org id message = fail_with (sv.decode (truncate_error message))
    where
      fail_with : (stored : Option Text) → IsValid (fail_stored org id stored sv n t).1
      fail_with none = v
      fail_with (some stored) =
          change_IsValid org id (set_failed stored)
            (unfold set_failed in
              (record { id = λ _. refl; organization = λ _. refl; order = λ _. refl }))
            (unfold set_failed in (λ _ _. tt))

-- Each call that writes keeps the table valid, whatever becomes of the connection.
module _ (db : Db) (v : IsValid db.tables) where
  pub create-IsValid : (input : CreateInput) → IsValid (create input db).1.tables
  unfolding create
  create-IsValid input =
      query_keeps IsValid (insert input) db v (insert_IsValid db.server db.step db.tables v input)

  pub mark_pdf_generated-IsValid :
      (org id key mime : Text) → IsValid (mark_pdf_generated org id key mime db).1.tables
  unfolding mark_pdf_generated
  mark_pdf_generated-IsValid org id key mime =
      query_keeps IsValid
        (change_record (trim_space org) (trim_space id)
          (set_generated (trim_space key) (trim_space mime)))
        db v (generate_IsValid db.server db.step db.tables v _ _ _ _)

  pub mark_pdf_failed-IsValid :
      (org id message : Text) → IsValid (mark_pdf_failed org id message db).1.tables
  unfolding mark_pdf_failed
  mark_pdf_failed-IsValid org id message =
      query_keeps IsValid (fail_record (trim_space org) (trim_space id) message) db v
        (fail_IsValid db.server db.step db.tables v (trim_space org) (trim_space id) message)
