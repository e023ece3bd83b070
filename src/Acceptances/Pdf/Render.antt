-- ===== src/Acceptances/Pdf/Render.antt =====
-- `Render` of internal/acceptances/pdf.go: the objects of the file, and the file with the table of the
-- offsets that they stand at. A file is the list of its bytes.
use tecora_be.Prelude.{
  ℕ, zero, suc, ◌+◌, List, [], ◌∷◌, ◌++◌, is_empty, length, concat, if◌then◌else◌,
}
use tecora_be.Text.{Text, codes}
use tecora_be.Text.Decimal.{decimal, padded}
use tecora_be.Text.Utf8.{utf8}
use tecora_be.Db.{AcceptanceRow, Result, ok, err}
use tecora_be.Acceptances.Model.{PdfDocument}
use tecora_be.Acceptances.Pdf.Signature.{Graphics}
use tecora_be.Acceptances.Pdf.Content.{build_pdf_content}

unfoldable pub stream_object : List ℕ → List ℕ
unfolding decimal
stream_object content = concat (
    codes "<< /Length "
    ∷ decimal (length content)
    ∷ codes " >>\nstream\n"
    ∷ content
    ∷ codes "endstream"
    ∷ [])

-- The closure `addObject`: the objects with a new one, and its number.
abbrev pub add_object : List ℕ → List (List ℕ) → List (List ℕ) × ℕ
add_object object objects = (objects ++ object ∷ [], length (objects ++ object ∷ []))

abbrev pub font_object : Text → List ℕ
font_object name = codes "<< /Type /Font /Subtype /Type1 /BaseFont /" ++ (name ++ codes " >>")

-- The number 0 stands for no image.
unfoldable pub page_resources : ℕ → ℕ → ℕ → Text
unfolding decimal
page_resources font_id bold_id image_id = concat (
    codes "<< /Font << /F1 "
    ∷ decimal font_id
    ∷ codes " 0 R /F2 "
    ∷ decimal bold_id
    ∷ codes " 0 R >>"
    ∷ (elim image_id [
      | zero ↦ []
      | suc n ↦ codes " /XObject << /Im1 " ++ (decimal (suc n) ++ codes " 0 R >>")
    ])
    ∷ codes " >>"
    ∷ [])

unfoldable pub page_object : ℕ → Text → ℕ → List ℕ
unfolding decimal
page_object parent resources content_id = concat (
    codes "<< /Type /Page /Parent "
    ∷ decimal parent
    ∷ codes " 0 R /MediaBox [0 0 612 792] /Resources "
    ∷ resources
    ∷ codes " /Contents "
    ∷ decimal content_id
    ∷ codes " 0 R >>"
    ∷ [])

unfoldable pub pages_object : ℕ → List ℕ
unfolding decimal
pages_object page_id =
    codes "<< /Type /Pages /Kids [" ++ (decimal page_id ++ codes " 0 R] /Count 1 >>")

unfoldable pub catalog_object : ℕ → List ℕ
unfolding decimal
catalog_object pages_id = codes "<< /Type /Catalog /Pages " ++ (decimal pages_id ++ codes " 0 R >>")

abbrev add_image : List ℕ → List (List ℕ) → List (List ℕ) × ℕ
add_image image objects = if is_empty image then (objects, 0) else add_object image objects

-- The objects, and the number of the catalog.
unfoldable pub file_objects : Text → List ℕ → List (List ℕ) × ℕ
file_objects content image =
    let (objects1, font_id) = add_object (font_object (codes "Helvetica")) [] in
    let (objects2, bold_id) = add_object (font_object (codes "Helvetica-Bold")) objects1 in
    let (objects3, image_id) = add_image image objects2 in
    let (objects4, content_id) = add_object (stream_object (utf8 content)) objects3 in
    let resources = page_resources font_id bold_id image_id in
    let (objects5, page_id) =
      add_object (page_object (length objects4 + 2) (utf8 resources) content_id) objects4 in
    let (objects6, pages_id) = add_object (pages_object page_id) objects5 in
    add_object (catalog_object pages_id) objects6

-- "%PDF-1.4", and a comment of four bytes beyond ASCII.
abbrev pub file_header : List ℕ
file_header = codes "%PDF-1.4\n%" ++ 0xe2 ∷ 0xe3 ∷ 0xcf ∷ 0xd3 ∷ b'\n' ∷ []

-- An object under its number.
unfoldable pub numbered_object : ℕ → List ℕ → List ℕ
unfolding decimal
numbered_object i object = decimal i ++ (codes " 0 obj\n" ++ (object ++ codes "\nendobj\n"))

-- The loop over the objects, the first with the number `i`: the offsets of the objects, and the file.
unfoldable pub write_objects : ℕ → List (List ℕ) → List ℕ → List ℕ × List ℕ
unfolding numbered_object
write_objects i [] out = ([], out)
write_objects i (object ∷ objects) out =
    let (offsets, file) = write_objects (suc i) objects (out ++ numbered_object i object) in
    (length out ∷ offsets, file)

unfoldable pub xref_entry : ℕ → List ℕ
unfolding padded
xref_entry offset = padded 10 offset ++ codes " 00000 n \n"

unfoldable pub xref_entries : List ℕ → List ℕ
unfolding xref_entry
xref_entries [] = []
xref_entries (offset ∷ offsets) = xref_entry offset ++ xref_entries offsets

unfoldable pub xref_table : List ℕ → List ℕ
unfolding xref_entries decimal
xref_table offsets = concat (
    codes "xref\n0 "
    ∷ decimal (length offsets + 1)
    ∷ codes "\n0000000000 65535 f \n"
    ∷ xref_entries offsets
    ∷ [])

unfoldable pub trailer : ℕ → ℕ → ℕ → List ℕ
unfolding decimal
trailer count catalog_id xref_offset = concat (
    codes "trailer\n<< /Size "
    ∷ decimal (count + 1)
    ∷ codes " /Root "
    ∷ decimal catalog_id
    ∷ codes " 0 R >>\nstartxref\n"
    ∷ decimal xref_offset
    ∷ codes "\n%%EOF"
    ∷ [])

abbrev pub write_table : ℕ → ℕ → List ℕ × List ℕ → List ℕ
write_table count catalog_id (offsets, out) =
    out ++ (xref_table offsets ++ trailer count catalog_id (length out))

unfoldable pub write_file : List (List ℕ) × ℕ → List ℕ
write_file (objects, catalog_id) =
    write_table (length objects) catalog_id (write_objects 1 objects file_header)

-- `Render` from the answer of `buildPDFContent` on
abbrev pub document_of : Result (Text × List ℕ) → Result PdfDocument
document_of (err e) = err e
document_of (ok (content, image)) = ok (record {
  bytes = write_file (file_objects content image);
  content_type = codes "application/pdf";
})

unfoldable pub render : Graphics → AcceptanceRow → Result PdfDocument
render go r = document_of (build_pdf_content go r)
