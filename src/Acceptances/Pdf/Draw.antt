-- ===== src/Acceptances/Pdf/Draw.antt =====
-- The drawing operators of internal/acceptances/pdf.go: each is the line that it writes.
use tecora_be.Prelude.{ℕ, List, [], ◌∷◌, ◌++◌}
use tecora_be.Prelude.Int.{pos, ℤ}
use tecora_be.Text.{Text, codes}
use tecora_be.Text.Split.{join}
use tecora_be.Acceptances.Pdf.Fixed.{pt, fixed}
use tecora_be.Acceptances.Pdf.Words.{escape_pdf_text}

pub record Colour : Type 0 where
  pub r : ℤ
  pub g : ℤ
  pub b : ℤ

-- In hundredths.
abbrev pub rgb : ℕ → ℕ → ℕ → Colour
rgb r g b = record { r = pos r; g = pos g; b = pos b }

abbrev pub white : Colour
white = rgb 100 100 100

abbrev pub page_width : ℤ
page_width = pt 612

abbrev pub page_height : ℤ
page_height = pt 792

abbrev pub page_margin : ℤ
page_margin = pt 44

abbrev pub content_width : ℤ
content_width = pt 524

-- `pdfPageMargin + pdfContentWidth`
abbrev pub right_edge : ℤ
right_edge = pt 568

-- Words with a blank between them, and the end of the line.
abbrev pub line_of : List Text → Text
line_of words = join b' ' words ++ b'\n' ∷ []

unfoldable pub write_fill_color : Colour → Text
unfolding fixed join
write_fill_color c = line_of (fixed c.r ∷ fixed c.g ∷ fixed c.b ∷ codes "rg" ∷ [])

unfoldable pub draw_filled_rect : ℤ → ℤ → ℤ → ℤ → Text
unfolding fixed join
draw_filled_rect x y width height =
    line_of (fixed x ∷ fixed y ∷ fixed width ∷ fixed height ∷ codes "re f" ∷ [])

unfoldable pub draw_stroke_rect : ℤ → ℤ → ℤ → ℤ → ℤ → Colour → Text
unfolding fixed join
draw_stroke_rect x y width height line_width c = line_of (
    fixed c.r
    ∷ fixed c.g
    ∷ fixed c.b
    ∷ codes "RG"
    ∷ fixed line_width
    ∷ codes "w"
    ∷ fixed x
    ∷ fixed y
    ∷ fixed width
    ∷ fixed height
    ∷ codes "re S"
    ∷ [])

unfoldable pub draw_line : ℤ → ℤ → ℤ → ℤ → ℤ → Colour → Text
unfolding fixed join
draw_line x1 y1 x2 y2 line_width c = line_of (
    fixed c.r
    ∷ fixed c.g
    ∷ fixed c.b
    ∷ codes "RG"
    ∷ fixed line_width
    ∷ codes "w"
    ∷ fixed x1
    ∷ fixed y1
    ∷ codes "m"
    ∷ fixed x2
    ∷ fixed y2
    ∷ codes "l S"
    ∷ [])

unfoldable pub write_text : Text → ℤ → Colour → ℤ → ℤ → Text → Text
unfolding fixed join escape_pdf_text
write_text font size c x y text = line_of (
    codes "BT"
    ∷ fixed c.r
    ∷ fixed c.g
    ∷ fixed c.b
    ∷ codes "rg"
    ∷ font
    ∷ fixed size
    ∷ codes "Tf 1 0 0 1"
    ∷ fixed x
    ∷ fixed y
    ∷ codes "Tm"
    ∷ (b'(' ∷ escape_pdf_text text ++ codes ")")
    ∷ codes "Tj ET"
    ∷ [])

unfoldable pub draw_rounded_badge : ℤ → ℤ → ℤ → ℤ → Colour → Text
unfolding write_fill_color draw_filled_rect
draw_rounded_badge x y width height c = write_fill_color c ++ draw_filled_rect x y width height
