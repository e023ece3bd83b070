-- ===== src/Acceptances/Pdf/Tests.antt =====
-- Runs of the renderer, and the theorems about it at concrete inputs.
use mathlib.Core.List.{Memᴰ}
use tecora_be.Prelude.{
  inl, inr, arith, any, false, ◌==◌, ℕ, ◌*◌, ◌-◌, ◌/◌, ◌≤◌, ◌≡◌, refl, ◌⊎◌, ◌↔◌, true, List, [],
  ◌∷◌, ◌++◌, map, none, some, ltb, All,
}
use tecora_be.Text.{Text, codes, fields, trim_space}
use tecora_be.Text.Split.{join}
use tecora_be.Text.Decimal.{decimal}
use tecora_be.Text.Utf8.{byte_length}
use tecora_be.Db.{AcceptanceRow, PdfStatus, EmailStatus, ok}
use tecora_be.Acceptances.Model.{PdfDocument}
use tecora_be.Acceptances.Pdf.Fixed.{pt}
use tecora_be.Acceptances.Pdf.Words.{escape_pdf_text, wrap_text}
use tecora_be.Acceptances.Pdf.Draw.{write_text, rgb}
use tecora_be.Acceptances.Pdf.Signature.{Float64, Graphics, signature_image_object}
use tecora_be.Acceptances.Pdf.Content.{build_pdf_content}
use tecora_be.Acceptances.Pdf.Render.{
  render, write_objects, write_file, xref_table, trailer, xref_entry,
}
use tecora_be.Acceptances.Pdf.Literals.{Mode, read_string, shown, read_string-escape_pdf_text}
use tecora_be.Acceptances.Pdf.Wrapping.{wrap_text-IsLine}
use tecora_be.Acceptances.Pdf.Structure.{IsDocument}
use tecora_be.Acceptances.Pdf.Offsets.{render-IsDocument}
use tecora_be.Acceptances.Pdf.Notes.{render-notes}
use tecora_be.Acceptances.Pdf.DataUrl.{Carries}
use tecora_be.Acceptances.Pdf.Readable.{IsImage, render_iff}
use tecora_be.Text.{text_eq}
use tecora_be.Db.Table.{select_first}
use tecora_be.Acceptances.Model.{normalize_submission}
use tecora_be.Acceptances.Path.{object_key}
use tecora_be.Acceptances.Repository.{new_record}
use tecora_be.Acceptances.Storage.{find_object}
use tecora_be.Acceptances.Service.{Service, new_service, submit, get_pdf}
use tecora_be.Acceptances.Service.Delivery.{IsNew, IsServed, row, finished}
use tecora_be.Acceptances.Service.Printed.{printing_service, submit-IsDocument}
use tecora_be.Samples.{form, input, server, world}

-- Hundredths.
abbrev floats : Float64
floats = record {
  Float = ℕ;
  of_int = λ n. n * 100;
  divide = λ a b. (a * 100) / b;
  multiply = λ a b. (a * b) / 100;
  subtract = λ a b. a - b;
  less = λ a b. ltb a b;
  print = λ a. decimal a;
}

abbrev go : Graphics
go = record {
  float64 = floats;
  decode_base64 = λ s. some s;
  decode_image = λ bytes. some (record { width = 40; height = 20; jpeg = ok bytes });
  format_time = λ n. codes "2026-01-02T03:04:05Z";
}

abbrev signed : AcceptanceRow
signed = record {
  id = codes "a1";
  organization_id = codes "o1";
  work_order_id = codes "WO-1";
  customer_name = codes "Bob (senior)";
  customer_email = codes "bob@example.com";
  service_date = codes "2026-01-02";
  service_expiration_date = codes "2027-01-02";
  service_type = codes "inspection";
  products = codes "hose" ∷ [];
  notes = codes "none";
  approved = true;
  signature_image_base64 = codes "data:image/png;base64,aGk=";
  signed_at = 7;
  signed_by_technician_id = codes "t1";
  pdf_status = PdfStatus.pending;
  email_status = EmailStatus.pending;
  pdf_storage_key = none;
  pdf_mime_type = none;
  pdf_error = none;
  pdf_generated_at = none;
  email_sent_at = none;
  created_at = 1;
  updated_at = 1;
}

writes :
    write_text (codes "/F1") (pt 10) (rgb 85 91 95) (pt 68) (pt 723) (codes " a\tb(c) ")
    ≡ codes "BT 0.85 0.91 0.95 rg /F1 10.00 Tf 1 0 0 1 68.00 723.00 Tm (a b\\(c\\)) Tj ET\n"
unfolding write_text
writes = refl

wraps :
    wrap_text (codes " one two  three four") 9 ≡ codes "one two" ∷ codes "three" ∷ codes "four" ∷ []
unfolding wrap_text
wraps = refl

enters : xref_entry 1234 ≡ codes "0000001234 00000 n \n"
unfolding xref_entry
enters = refl

files :
    write_file (codes "A" ∷ codes "BC" ∷ [], 2)
    ≡ codes "%PDF-1.4\n%"
      ++ 0xe2
        ∷ 0xe3
        ∷ 0xcf
        ∷ 0xd3
        ∷ codes
            "\n1 0 obj\nA\nendobj\n2 0 obj\nBC\nendobj\nxref\n0 3\n0000000000 65535 f \n0000000015 00000 n \n0000000032 00000 n \ntrailer\n<< /Size 3 /Root 2 0 R >>\nstartxref\n50\n%%EOF"
unfolding write_file write_objects xref_table trailer
files = refl

read_string-escape_pdf_text_example :
    read_string Mode.inside 0 (escape_pdf_text (codes " a)\t•é\\ ") ++ b')' ∷ codes " Tj")
    ≡ some (map shown (trim_space (codes " a)\t•é\\ ")), codes " Tj")
read_string-escape_pdf_text_example = read_string-escape_pdf_text (codes " a)\t•é\\ ") (codes " Tj")

wrap_text-IsLine_example :
    let words = fields (trim_space (codes "one two three")) in
    (join b' ' (wrap_text (codes "one two three") 8) ≡ join b' ' words)
    × All (λ line. (byte_length line ≤ 8) ⊎ Memᴰ line words) (wrap_text (codes "one two three") 8)
wrap_text-IsLine_example = wrap_text-IsLine (codes "one two three") 8

render-notes_example :
    render go (record signed { notes = codes "valve 3 leaks" }) ≡ render go signed
render-notes_example = render-notes go signed (codes "valve 3 leaks")

no_comma : (s : Text) → any (λ c. c == b',') s ≡ false → All (λ c. ¬ (c ≡ b',')) s
no_comma [] h = tt
no_comma (c ∷ s) h = (λ same. ground arith, no_comma s (ground arith))

carried_url : Carries (codes "data:image/png;base64,aGk=") (codes "aGk=")
carried_url = inr (codes "image/png;base64", no_comma (codes "image/png;base64") refl, refl)

-- The text is no data URL.
carried : Carries (codes "aGk=") (codes "aGk=")
carried = inl (λ (rest, e). ground arith, refl)

image : IsImage go signed.signature_image_base64
unfolding signature_image_object
image = record {
  given = refl;
  text = codes "aGk=";
  text_given = carried_url;
  bytes = codes "aGk=";
  text_read = refl;
  picture = record { width = 40; height = 20; jpeg = ok (codes "aGk=") };
  bytes_read = refl;
  jpeg = codes "aGk=";
  jpeg_made = refl;
}

rendered : (doc : PdfDocument) × (render go signed ≡ ok doc)
rendered = (render_iff go signed).1 image

render_iff_example :
    ((doc : PdfDocument) × (render go signed ≡ ok doc)) ↔ IsImage go signed.signature_image_base64
render_iff_example = render_iff go signed

render-IsDocument_example :
    (b : Text × List ℕ) × (build_pdf_content go signed ≡ ok b) × IsDocument b rendered.0.bytes
render-IsDocument_example = render-IsDocument go signed rendered.0 rendered.1

abbrev printing : Service
printing = printing_service go (λ _. some 7) (λ _. codes "no") (codes "docs")

-- The record that the form becomes.
abbrev entered : AcceptanceRow
entered =
    new_record (record input { organization_id = trim_space (codes "o1") }) (codes "o1") server 1

entered_image : IsImage go entered.signature_image_base64
unfolding signature_image_object new_record
entered_image = record {
  given = refl;
  text = codes "aGk=";
  text_given = carried;
  bytes = codes "aGk=";
  text_read = refl;
  picture = record { width = 40; height = 20; jpeg = ok (codes "aGk=") };
  bytes_read = refl;
  jpeg = codes "aGk=";
  jpeg_made = refl;
}

document : (doc : PdfDocument) × (render go entered ≡ ok doc)
document = (render_iff go entered).1 entered_image

fresh : IsNew printing (codes "o1") form world input (codes "o1") document.0
unfolding normalize_submission trim_space text_eq select_first new_service
fresh = record { normal = refl; named = refl; owner = refl; known = refl; first = refl; key = refl }

served : IsServed printing (codes "o1") form world input (codes "o1") document.0
unfolding trim_space text_eq new_record find_object object_key new_service
served = record {
  lookup = refl;
  insert = refl;
  mark = refl;
  read = refl;
  owner_again = refl;
  key_again = refl;
  rendered = document.1;
  token = (codes "t", refl);
  stored = refl;
  next_token = (codes "t", refl);
  delivered = refl;
  free = refl;
  full = refl;
}

submit-IsDocument_example :
    let r = finished printing (codes "o1") form world input (codes "o1") document.0 fresh served in
    (doc : PdfDocument) × (b : Text × List ℕ) × ((get_pdf r.organization_id r.id
        (submit printing (codes "o1") form world).1).0
      ≡ ok doc)
    × (build_pdf_content go (row printing (codes "o1") form world input (codes "o1") document.0)
        ≡ ok b)
    × IsDocument b doc.bytes
submit-IsDocument_example =
    submit-IsDocument go (λ _. some 7) (λ _. codes "no") (codes "docs") (codes "o1") form world
      input (codes "o1") document.0 fresh served
