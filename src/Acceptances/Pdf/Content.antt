-- ===== src/Acceptances/Pdf/Content.antt =====
-- `buildPDFContent` of internal/acceptances/pdf.go: the page's drawing operators, from top to bottom.
use tecora_be.Prelude.{ℕ, Bool, true, false, List, [], ◌∷◌, ◌++◌, is_empty, concat, if◌then◌else◌}
use tecora_be.Prelude.Int.{ℤ, ◌-ℤ◌}
use tecora_be.Text.{Text, codes}
use tecora_be.Db.{AcceptanceRow, Result, ok, err}
use tecora_be.Acceptances.Pdf.Fixed.{pt}
use tecora_be.Acceptances.Pdf.Words.{
  default_value, default_notes, sanitized_products, highlight_value,
}
use tecora_be.Acceptances.Pdf.Draw.{
  Colour, rgb, white, page_width, page_height, page_margin, content_width, write_fill_color,
  draw_filled_rect, write_text, draw_rounded_badge,
}
use tecora_be.Acceptances.Pdf.Boxes.{
  regular, bold, navy, to_upper, DetailRow, draw_section_header, draw_detail_box, draw_list_box,
  draw_paragraph_box,
}
use tecora_be.Acceptances.Pdf.Signature.{
  Graphics, ImageObject, signature_image_object, place_image, draw_signature_footer,
}

abbrev pale : Colour
pale = rgb 85 91 95

abbrev status_text : Bool → Text
status_text approved = if approved then codes "Aprobado" else codes "Pendiente"

abbrev status_colour : Bool → Colour
status_colour approved = if approved then rgb 13 44 24 else rgb 64 16 16

-- `headerBottom` is 666.
unfoldable pub draw_header : AcceptanceRow → Text
draw_header r = concat (
    write_fill_color white
    ∷ draw_filled_rect (pt 0) (pt 0) page_width page_height
    ∷ write_fill_color navy
    ∷ draw_filled_rect page_margin (pt 666) content_width (pt 82)
    ∷ write_text regular (pt 10) pale (pt 68) (pt 723) (codes "ACEPTACION DE SERVICIO")
    ∷ write_text bold (pt 26) white (pt 68) (pt 696) r.work_order_id
    ∷ write_text regular (pt 11) pale (pt 68) (pt 678) (codes "ID de aceptacion " ++ r.id)
    ∷ draw_rounded_badge (pt 436) (pt 687) (pt 92) (pt 30) (status_colour r.approved)
    ∷ write_text bold (pt 11) white (pt 462) (pt 697) (to_upper (status_text r.approved))
    ∷ [])

abbrev plain : Text → Text → DetailRow
plain label value = record { label = label; value = value; highlight = false }

unfoldable pub customer_rows : AcceptanceRow → List DetailRow
unfolding default_value
customer_rows r =
    plain (codes "Nombre") (default_value r.customer_name)
    ∷ plain (codes "Correo") (default_value r.customer_email)
    ∷ []

unfoldable pub work_rows : (ℕ → Text) → AcceptanceRow → List DetailRow
unfolding default_value highlight_value
work_rows format_time r =
    plain (codes "Fecha de servicio") (default_value r.service_date)
    ∷ record {
      label = codes "Fecha de vencimiento";
      value = highlight_value r.service_expiration_date;
      highlight = true;
    }
    ∷ plain (codes "Tipo de servicio") (default_value r.service_type)
    ∷ plain (codes "Tecnico") (default_value r.signed_by_technician_id)
    ∷ plain (codes "Fecha de firma (UTC)") (format_time r.signed_at)
    ∷ []

-- A section is its header and its box.
abbrev pub section : Text → (ℤ → Text × ℤ) → ℤ → Text × ℤ
section title box y =
    let (header, y1) = draw_section_header y title in
    let (body, y2) = box y1 in (header ++ body, y2)

-- The first three of the four sections, below one another with a gap of 18 points.
unfoldable pub draw_facts : (ℕ → Text) → AcceptanceRow → ℤ → Text × ℤ
draw_facts format_time r y =
    let (customer, y1) =
      section (codes "Informacion del cliente") (λ top. draw_detail_box top (customer_rows r)) y in
    let (work, y2) =
      section (codes "Informacion del trabajo")
        (λ top. draw_detail_box top (work_rows format_time r)) (y1 -ℤ pt 18) in
    let (products, y3) =
      section (codes "Productos incluidos")
        (λ top. draw_list_box top (sanitized_products r.products)) (y2 -ℤ pt 18) in
    (customer ++ (work ++ products), y3)

unfoldable pub draw_notes : Text → Text × ℤ → Text
draw_notes notes (above, y) =
    above
    ++ (section (codes "Notas") (λ top. draw_paragraph_box top (default_notes notes))
        (y -ℤ pt 18)).0

-- The content with the image object, which is empty where Go's is nil.
module _ (go : Graphics) where
  abbrev pub content_with : AcceptanceRow → ImageObject → Text
  content_with r image = concat (
      draw_header r
      ∷ draw_notes r.notes (draw_facts go.format_time r (pt 648))
      ∷ draw_signature_footer image.width image.height
      ∷ (if is_empty image.object then [] else place_image go image)
      ∷ [])

  -- … from the answer of `signatureImageObject` on
  abbrev pub content_of : AcceptanceRow → Result ImageObject → Result (Text × List ℕ)
  content_of r (err e) = err e
  content_of r (ok image) = ok (content_with r image, image.object)

  unfoldable pub build_pdf_content : AcceptanceRow → Result (Text × List ℕ)
  build_pdf_content r = content_of r (signature_image_object go r.signature_image_base64)
