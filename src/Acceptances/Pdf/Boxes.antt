-- ===== src/Acceptances/Pdf/Boxes.antt =====
-- The sections of the page of internal/acceptances/pdf.go. A box is given the height it starts at and
-- returns what it writes, with the height it ends at.
use tecora_be.Prelude.{
  ℕ, ◌+◌, ◌*◌, Bool, true, false, ◌&&◌, List, [], ◌∷◌, ◌++◌, map, length, concat, leb, ◌-◌,
  if◌then◌else◌,
}
use tecora_be.Prelude.Int.{is_less, pos, ℤ, ◌+ℤ◌, ◌-ℤ◌}
use tecora_be.Text.{Text, codes}
use tecora_be.Acceptances.Pdf.Fixed.{pt}
use tecora_be.Acceptances.Pdf.Words.{wrap_text}
use tecora_be.Acceptances.Pdf.Draw.{
  Colour, rgb, white, page_margin, content_width, right_edge, write_fill_color, draw_filled_rect,
  draw_stroke_rect, draw_line, write_text,
}

-- `strings.ToUpper` on the labels, which are ASCII.
unfoldable pub to_upper : Text → Text
to_upper s = map (λ c. if leb b'a' c && leb c b'z' then c - 32 else c) s

abbrev pub regular : Text
regular = codes "/F1"

abbrev pub bold : Text
bold = codes "/F2"

abbrev pub navy : Colour
navy = rgb 9 21 34

abbrev pub border : Colour
border = rgb 85 88 91

unfoldable pub draw_section_header : ℤ → Text → Text × ℤ
draw_section_header y title = (
  write_text bold (pt 13) navy page_margin y title
      ++ draw_line page_margin (y -ℤ pt 9) right_edge (y -ℤ pt 9) (pt 1) (rgb 77 82 87),
  y -ℤ pt 20,
)

pub record DetailRow : Type 0 where
  pub label : Text
  pub value : Text
  pub highlight : Bool

-- One round of the loop; the Boolean is `i > 0`.
unfoldable pub draw_row : Bool → ℤ → DetailRow → Text
unfolding write_text draw_line write_fill_color draw_filled_rect to_upper ◌+ℤ◌ ◌-ℤ◌
draw_row later y row = concat (
    (if later
      then draw_line (pt 62) (y +ℤ pt 13) (pt 550) (y +ℤ pt 13) (pos 60) (rgb 88 90 93)
      else [])
    ∷ write_text regular (pos 850) (rgb 38 45 53) (pt 62) (y +ℤ pt 10) (to_upper row.label)
    ∷ (if row.highlight
        then write_fill_color (rgb 100 95 86)
          ++ draw_filled_rect (pt 214) (y -ℤ pt 7) (pt 176) (pt 22)
        else [])
    ∷ write_text bold (pt 12) (rgb 11 13 16) (pt 156) (y -ℤ pt 1) row.value
    ∷ [])

unfoldable pub draw_rows : Bool → ℤ → List DetailRow → Text
unfolding draw_row
draw_rows later y [] = []
draw_rows later y (row ∷ rows) = draw_row later y row ++ draw_rows true (y -ℤ pt 38) rows

-- The background of a box, from its top and its height.
unfoldable pub draw_frame : Colour → ℤ → ℤ → Text
draw_frame background bottom height =
    write_fill_color background
    ++ (draw_filled_rect page_margin bottom content_width height
        ++ draw_stroke_rect page_margin bottom content_width height (pos 80) border)

unfoldable pub draw_detail_box : ℤ → List DetailRow → Text × ℤ
draw_detail_box top rows =
    let height = pt (length rows * 38 + 16) in
    let bottom = top -ℤ height in
    (draw_frame (rgb 97 98 99) bottom height ++ draw_rows false (top -ℤ pt 18) rows, bottom)

-- The lines of the items, the first of each behind a bullet and the others indented.
abbrev pub item_lines : List Text → List Text
item_lines [] = []
item_lines (first ∷ rest) = (codes "• " ++ first) ∷ map (λ line. codes "  " ++ line) rest

unfoldable pub list_lines : List Text → List Text
unfolding wrap_text
list_lines [] = []
list_lines (item ∷ items) = item_lines (wrap_text item 52) ++ list_lines items

abbrev pub or_none : List Text → List Text
or_none [] = codes "• Ninguno" ∷ []
or_none (line ∷ lines) = line ∷ lines

unfoldable pub draw_list_lines : ℤ → List Text → Text
draw_list_lines y [] = []
draw_list_lines y (line ∷ lines) =
    write_text regular (pt 11) (rgb 17 20 25) (pt 62) y line ++ draw_list_lines (y -ℤ pt 16) lines

unfoldable pub draw_list_box : ℤ → List Text → Text × ℤ
draw_list_box top items =
    let lines = or_none (list_lines items) in
    let height = pt (length lines * 16 + 20) in
    let bottom = top -ℤ height in
    (draw_frame (rgb 99 99 100) bottom height ++ draw_list_lines (top -ℤ pt 18) lines, bottom)

-- The loop stops at the first line that would stand lower than 14 points above the bottom.
unfoldable pub draw_paragraph_lines : ℤ → ℤ → List Text → Text
draw_paragraph_lines bottom y [] = []
draw_paragraph_lines bottom y (line ∷ lines) =
    let rest = draw_paragraph_lines bottom (y -ℤ pt 15) lines in
    if is_less y (bottom +ℤ pt 14)
    then []
    else write_text regular (pos 1050) (rgb 20 23 27) (pt 62) y line ++ rest

abbrev pub or_no_notes : List Text → List Text
or_no_notes [] = codes "No se proporcionaron notas adicionales." ∷ []
or_no_notes (line ∷ lines) = line ∷ lines

-- `pdfFooterHeight + 18`
abbrev pub min_bottom : ℤ
min_bottom = pt 170

-- The bottom and the height of the box around so many lines.
unfoldable pub paragraph_extent : ℤ → ℕ → ℤ × ℤ
paragraph_extent top lines =
    let height = pt (lines * 15 + 22) in
    let bottom = top -ℤ height in
    if is_less bottom min_bottom then (min_bottom, top -ℤ min_bottom) else (bottom, height)

abbrev pub paragraph_of : ℤ → List Text → Text × ℤ
paragraph_of top lines =
    let (bottom, height) = paragraph_extent top (length lines) in
    (draw_frame white bottom height ++ draw_paragraph_lines bottom (top -ℤ pt 18) lines, bottom)

unfoldable pub draw_paragraph_box : ℤ → Text → Text × ℤ
draw_paragraph_box top notes = paragraph_of top (or_no_notes (wrap_text notes 72))
