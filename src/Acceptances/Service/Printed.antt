-- ===== src/Acceptances/Service/Printed.antt =====
-- `NewService` with the renderer of internal/acceptances/pdf.go, as internal/server/server.go makes it:
-- what `GetPDF` returns after `Submit`.
use tecora_be.Prelude.{ℕ, ◌≡◌, List, Option}
use tecora_be.Text.{Text}
use tecora_be.Db.{AcceptanceRow, Error, ok}
use tecora_be.Acceptances.Model.{Submission, CreateInput, PdfDocument}
use tecora_be.Acceptances.Storage.{received}
use tecora_be.Acceptances.Service.{Service, World, new_service, submit, get_pdf}
use tecora_be.Acceptances.Service.Delivery.{IsNew, IsServed, row, finished, submit-get_pdf}
use tecora_be.Acceptances.Pdf.Signature.{Graphics}
use tecora_be.Acceptances.Pdf.Content.{build_pdf_content}
use tecora_be.Acceptances.Pdf.Render.{render}
use tecora_be.Acceptances.Pdf.Structure.{IsDocument}
use tecora_be.Acceptances.Pdf.Offsets.{render-IsDocument}

module _ (go : Graphics) (parse_time : Text → Option ℕ) (message : Error → Text)
    (prefix : Text) where
  -- The service of the server.
  abbrev pub printing_service : Service
  printing_service = new_service parse_time (render go) message prefix

  rendered :
      (r : AcceptanceRow) (pdf : PdfDocument)
      → printing_service.render r ≡ ok pdf
      → render go r ≡ ok pdf
  unfolding new_service
  rendered r pdf h = h

  received-IsDocument :
      (b : Text × List ℕ) (pdf : PdfDocument)
      → IsDocument b pdf.bytes
      → IsDocument b (received pdf).bytes
  unfolding received
  received-IsDocument b pdf d = d

  -- An acceptable submission of a work order that has no acceptance, where the database answers, the
  -- signature can be rendered and the storage service takes the document and gives it back, becomes a
  -- record for which `GetPDF` returns a PDF file that can be followed from its end: "startxref" leads to
  -- the table, the table to each object, the trailer to the catalog, this to the pages, these to the one
  -- page, and this to its fonts, its image and the stream of the content that `buildPDFContent` makes of
  -- the record.
  pub submit-IsDocument :
      (org : Text) (x : Submission) (w : World) (input : CreateInput) (o : Text) (pdf : PdfDocument)
      (fresh : IsNew printing_service org x w input o pdf)
      (served : IsServed printing_service org x w input o pdf)
      → let r = finished printing_service org x w input o pdf fresh served in
        (doc : PdfDocument) × (b : Text × List ℕ) × ((get_pdf r.organization_id r.id
            (submit printing_service org x w).1).0
          ≡ ok doc)
        × (build_pdf_content go (row printing_service org x w input o pdf) ≡ ok b)
        × IsDocument b doc.bytes
  submit-IsDocument org x w input o pdf fresh served =
      let printed = rendered (row printing_service org x w input o pdf) pdf served.rendered in
      let (b, built, document) =
        render-IsDocument go (row printing_service org x w input o pdf) pdf printed in
      (
        received pdf,
        b,
        (submit-get_pdf printing_service org x w input o pdf fresh served).2,
        built,
        received-IsDocument b pdf document,
      )
