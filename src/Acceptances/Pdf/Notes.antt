-- ===== src/Acceptances/Pdf/Notes.antt =====
-- Where the sections of a page stand.
use tecora_be.Prelude.{
  ℕ, ◌≤◌, ◌<◌, ◌≡◌, refl, sym, ap, ◌∙◌, List, [], ◌∷◌, ◌++◌, arith, length, concat, is_empty,
  if◌then◌else◌,
}
use tecora_be.Prelude.Int.{negsuc, pos, pos_part, ℤ, ◌+ℤ◌, ◌-ℤ◌}
use tecora_be.Text.{Text}
use tecora_be.Db.{AcceptanceRow, Result, ok, err}
use tecora_be.Acceptances.Pdf.Fixed.{pt}
use tecora_be.Acceptances.Pdf.Boxes.{
  draw_list_box, draw_section_header, draw_detail_box, draw_paragraph_box, draw_paragraph_lines,
  paragraph_extent, paragraph_of, draw_frame, or_no_notes, or_none, list_lines, min_bottom,
}
use tecora_be.Acceptances.Pdf.Words.{wrap_text, default_notes, sanitized_products}
use tecora_be.Acceptances.Pdf.Draw.{white}
use tecora_be.Acceptances.Pdf.Signature.{
  Graphics, ImageObject, place_image, draw_signature_footer, signature_image_object,
}
use tecora_be.Acceptances.Pdf.Content.{
  draw_header, draw_facts, draw_notes, content_with, content_of, build_pdf_content, customer_rows,
  work_rows,
}
use tecora_be.Acceptances.Pdf.Render.{render, document_of}

-- At most `n` hundredths.
abbrev IsAtMost : ℤ → ℕ → Type 0
IsAtMost z n = pos_part z ≤ n

-- Below 192 points no line is written, and the box is as large as it can be.
extent_low :
    (top : ℤ) (lines : ℕ)
    → IsAtMost top 18400
    → 0 < lines
    → paragraph_extent top lines ≡ (min_bottom, top -ℤ min_bottom)
unfolding paragraph_extent ◌-ℤ◌
extent_low (pos n) lines h p = ground arith
extent_low (negsuc n) lines h p = ground arith

lines_low :
    (top : ℤ) (lines : List Text)
    → IsAtMost top 18400
    → draw_paragraph_lines min_bottom (top -ℤ pt 18) lines ≡ []
unfolding draw_paragraph_lines ◌-ℤ◌ ◌+ℤ◌
lines_low top [] h = refl
lines_low (pos n) (line ∷ lines) h = ground arith
lines_low (negsuc n) (line ∷ lines) h = ground arith

filled : (lines : List Text) → 0 < length (or_no_notes lines)
filled [] = omega arith
filled (line ∷ lines) = omega arith

paragraph_low :
    (top : ℤ) (lines : List Text)
    → IsAtMost top 18400
    → 0 < length lines
    → paragraph_of top lines ≡ (draw_frame white min_bottom (top -ℤ min_bottom) ++ [], min_bottom)
paragraph_low top lines h p = rw (extent_low top (length lines) h p, lines_low top lines h) refl

box_low :
    (top : ℤ) (notes notes' : Text)
    → IsAtMost top 18400
    → draw_paragraph_box top notes ≡ draw_paragraph_box top notes'
unfolding draw_paragraph_box
box_low top notes notes' h =
    let lines = wrap_text notes 72 in
    let lines' = wrap_text notes' 72 in
    paragraph_low top (or_no_notes lines) h (filled lines)
    ∙ sym (paragraph_low top (or_no_notes lines') h (filled lines'))

listed : (lines : List Text) → 0 < length (or_none lines)
listed [] = omega arith
listed (line ∷ lines) = omega arith

-- Every box ends at least 36 points below its top.
list_low : (items : List Text) → IsAtMost ((draw_list_box (pt 254) items).1 -ℤ pt 18 -ℤ pt 20) 18400
unfolding draw_list_box ◌-ℤ◌
list_low items = let some_line = listed (list_lines items) in ground arith

facts_low :
    (format_time : ℕ → Text) (r : AcceptanceRow)
    → IsAtMost ((draw_facts format_time r (pt 648)).1 -ℤ pt 18 -ℤ pt 20) 18400
unfolding draw_facts draw_section_header draw_detail_box customer_rows work_rows ◌-ℤ◌
facts_low format_time r = list_low (sanitized_products r.products)

notes_low :
    (notes notes' : Text) (above : Text × ℤ)
    → IsAtMost (above.1 -ℤ pt 18 -ℤ pt 20) 18400
    → draw_notes notes above ≡ draw_notes notes' above
unfolding draw_notes draw_section_header
notes_low notes notes' (above, y) low =
    rw (box_low (y -ℤ pt 18 -ℤ pt 20) (default_notes notes) (default_notes notes') low) refl

module _ (go : Graphics) (r : AcceptanceRow) (notes : Text) where
  content_notes :
      (image : ImageObject)
      → content_with go (record r { notes = notes }) image ≡ content_with go r image
  unfolding draw_header draw_facts customer_rows work_rows
  content_notes image =
      let facts = draw_facts go.format_time r (pt 648) in
      ap
        (λ (drawn : Text). concat (
          draw_header r
          ∷ drawn
          ∷ draw_signature_footer image.width image.height
          ∷ (if is_empty image.object then [] else place_image go image)
          ∷ []))
        (notes_low notes r.notes facts (facts_low go.format_time r))

  built_notes :
      (signature : Result ImageObject)
      → content_of go (record r { notes = notes }) signature ≡ content_of go r signature
  built_notes (err e) = refl
  built_notes (ok image) = ap (λ (content : Text). ok (content, image.object)) (content_notes image)

  -- The notes of an acceptance do not show in its document: at the height where their section stands
  -- there is no line for them.
  pub render-notes : render go (record r { notes = notes }) ≡ render go r
  unfolding render build_pdf_content
  render-notes = ap document_of (built_notes (signature_image_object go r.signature_image_base64))
