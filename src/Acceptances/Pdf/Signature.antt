-- ===== src/Acceptances/Pdf/Signature.antt =====
-- The signature of internal/acceptances/pdf.go: its image object, and the footer that it stands in.
use tecora_be.Prelude.{
  ℕ, Bool, ◌||◌, List, [], ◌∷◌, Option, none, some, is_empty, length, concat, ◌==◌, if◌then◌else◌,
}
use tecora_be.Prelude.Int.{pos}
use tecora_be.Text.{Text, codes, trim_space, after_prefix, has_prefix}
use tecora_be.Text.Decimal.{decimal}
use tecora_be.Text.Split.{join}
use tecora_be.Db.{Package, invalid_input, Result, ok, err}
use tecora_be.Acceptances.Pdf.Fixed.{pt}
use tecora_be.Acceptances.Pdf.Draw.{
  rgb, page_margin, right_edge, write_fill_color, draw_filled_rect, draw_stroke_rect, draw_line,
  write_text, line_of,
}
use tecora_be.Acceptances.Pdf.Boxes.{regular, bold, navy, border}

-- What `image.Decode` and `jpeg.Encode` make of an image, laid on white: its width and height, and
-- the JPEG. `none` is a text of no known format.
pub record Picture : Type 0 where
  pub width : ℕ
  pub height : ℕ
  pub jpeg : Result (List ℕ)

-- The arithmetic of `float64` on the size of the image, and `%.2f` of it.
pub record Float64 : Type 1 where
  pub Float : Type 0
  pub of_int : ℕ → Float
  pub divide : Float → Float → Float
  pub multiply : Float → Float → Float
  pub subtract : Float → Float → Float
  pub less : Float → Float → Bool
  pub print : Float → Text

-- What the renderer takes from Go's packages; `format_time` prints an instant as RFC 3339.
pub record Graphics : Type 1 where
  pub float64 : Float64
  pub decode_base64 : Text → Option (List ℕ)
  pub decode_image : List ℕ → Option Picture
  pub format_time : ℕ → Text

-- An image object with the width and the height of its image.
pub record ImageObject : Type 0 where
  pub object : List ℕ
  pub width : ℕ
  pub height : ℕ

-- `strings.SplitN(raw, ",", 2)`: the second part, if there are two
unfoldable pub after_comma : Text → Option Text
after_comma [] = none
after_comma (c ∷ s) = if c == b',' then some s else after_comma s

abbrev pub picture_object : ℕ → ℕ → List ℕ → List ℕ
picture_object width height jpeg = concat (
    codes "<< /Type /XObject /Subtype /Image /Width "
    ∷ decimal width
    ∷ codes " /Height "
    ∷ decimal height
    ∷ codes " /ColorSpace /DeviceRGB /BitsPerComponent 8 /Filter /DCTDecode /Length "
    ∷ decimal (length jpeg)
    ∷ codes " >>\nstream\n"
    ∷ jpeg
    ∷ codes "\nendstream"
    ∷ [])

abbrev pub encoded : ℕ → ℕ → Result (List ℕ) → Result ImageObject
encoded width height (err e) = err e
encoded width height (ok jpeg) =
    ok (record { object = picture_object width height jpeg; width = width; height = height })

-- The text behind the comma of a data URL, or the text itself.
unfoldable pub payload : Text → Option Text
unfolding after_prefix after_comma
payload raw = if has_prefix (codes "data:") raw then after_comma raw else some raw

abbrev pub pictured : Option Picture → Result ImageObject
pictured none = err (invalid_input Package.acceptances)
pictured (some picture) = encoded picture.width picture.height picture.jpeg

module _ (go : Graphics) where
  abbrev pub decoded_bytes : Option (List ℕ) → Result ImageObject
  decoded_bytes none = err (invalid_input Package.acceptances)
  decoded_bytes (some bytes) = pictured (go.decode_image bytes)

  abbrev pub decoded : Option Text → Result ImageObject
  decoded none = err (invalid_input Package.acceptances)
  decoded (some text) = decoded_bytes (go.decode_base64 text)

  unfoldable pub signature_image_object : Text → Result ImageObject
  unfolding trim_space payload decimal
  signature_image_object input =
      let raw = trim_space input in
      if is_empty raw then err (invalid_input Package.acceptances) else decoded (payload raw)

  -- The operator that draws the image, at most 176 by 44 points large.
  unfoldable pub place_image : ImageObject → Text
  unfolding join
  place_image image =
      let float = go.float64 in
      let width = float.of_int image.width in
      let height = float.of_int image.height in
      let by_width = float.divide (float.of_int 176) width in
      let by_height = float.divide (float.of_int 44) height in
      let scale = if float.less by_width by_height then by_width else by_height in
      let shrinks = float.less scale (float.of_int 1) in
      let draw_width = if shrinks then float.multiply width scale else width in
      let draw_height = if shrinks then float.multiply height scale else height in
      let x = float.subtract (float.subtract (float.of_int 568) draw_width) (float.of_int 20) in
      line_of (
        codes "q"
        ∷ float.print draw_width
        ∷ codes "0 0"
        ∷ float.print draw_height
        ∷ float.print x
        ∷ float.print (float.of_int 52)
        ∷ codes "cm /Im1 Do Q"
        ∷ [])

unfoldable pub draw_signature_footer : ℕ → ℕ → Text
unfolding write_text draw_line write_fill_color draw_filled_rect draw_stroke_rect
draw_signature_footer width height = concat (
    draw_line page_margin (pt 152) right_edge (pt 152) (pt 1) (rgb 84 87 90)
    ∷ write_text bold (pt 12) navy page_margin (pt 106) (codes "Confirmacion de aceptacion")
    ∷ write_text regular (pos 950) (rgb 36 42 49) page_margin (pt 84)
        (codes "Los datos del cliente y del servicio fueron confirmados al momento de la firma.")
    ∷ write_text regular (pos 950) (rgb 36 42 49) page_margin (pt 68)
        (codes "Este documento esta disenado para facilitar su lectura, envio y archivo.")
    ∷ write_fill_color (rgb 97 98 99)
    ∷ draw_filled_rect (pt 348) (pt 28) (pt 220) (pt 96)
    ∷ draw_stroke_rect (pt 348) (pt 28) (pt 220) (pt 96) (pos 80) border
    ∷ write_text regular (pt 9) (rgb 38 45 53) (pt 364) (pt 106) (codes "FIRMA")
    ∷ (if width == 0 || height == 0
        then write_text regular (pt 10) (rgb 45 48 52) (pt 364) (pt 76)
            (codes "Firma no disponible")
        else [])
    ∷ draw_line (pt 364) (pt 52) (pt 552) (pt 52) (pos 80) (rgb 74 78 83)
    ∷ [])
