-- ===== src/Acceptances/Repository/Frame.antt =====
-- The methods of internal/acceptances/repository.go that write leave the other tables alone.
use tecora_be.Prelude.{refl}
use tecora_be.Text.{Text}
use tecora_be.Db.{Tables, Db}
use tecora_be.Db.Frame.{AcceptancesOnly}
use tecora_be.Acceptances.Model.{CreateInput}
use tecora_be.Acceptances.Repository.{create, mark_pdf_generated, mark_pdf_failed}
use tecora_be.Acceptances.Repository.Effects.{
  create_effect, mark_pdf_generated_effect, mark_pdf_failed_effect,
}

module _ (db : Db) where
  abbrev IsNext : Tables → Type 0
  IsNext t = AcceptancesOnly db.tables t

  unchanged : IsNext db.tables
  unchanged = record { organizations = refl; users = refl; work_orders = refl }

  pub create-AcceptancesOnly :
      (input : CreateInput) → AcceptancesOnly db.tables (create input db).1.tables
  create-AcceptancesOnly input =
      create_effect IsNext db unchanged input
        (λ _. record { organizations = refl; users = refl; work_orders = refl })

  pub mark_pdf_generated-AcceptancesOnly :
      (org id key mime : Text)
      → AcceptancesOnly db.tables (mark_pdf_generated org id key mime db).1.tables
  mark_pdf_generated-AcceptancesOnly org id key mime =
      mark_pdf_generated_effect IsNext db unchanged org id key mime
        (λ _. record { organizations = refl; users = refl; work_orders = refl })

  pub mark_pdf_failed-AcceptancesOnly :
      (org id message : Text)
      → AcceptancesOnly db.tables (mark_pdf_failed org id message db).1.tables
  mark_pdf_failed-AcceptancesOnly org id message =
      mark_pdf_failed_effect IsNext db unchanged org id message
        (λ _ _. record { organizations = refl; users = refl; work_orders = refl })
