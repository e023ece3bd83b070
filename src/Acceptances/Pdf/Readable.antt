-- ===== src/Acceptances/Pdf/Readable.antt =====
-- Which records `Render` of internal/acceptances/pdf.go makes a document of.
use tecora_be.Prelude.{
  ℕ, ◌≡◌, refl, ap, ◌∙◌, ◌↔◌, inl, inr, false, List, some, arith, is_empty, Bool-cases,
  Option-cases,
}
use tecora_be.Text.{Text, trim_space}
use tecora_be.Db.{AcceptanceRow, Result, ok, err, Result-cases}
use tecora_be.Acceptances.Model.{PdfDocument}
use tecora_be.Acceptances.Pdf.Signature.{
  Graphics, Picture, ImageObject, picture_object, encoded, pictured, decoded_bytes, decoded,
  payload, signature_image_object,
}
use tecora_be.Acceptances.Pdf.DataUrl.{Carries, payload-Carries, payload_of_Carries}
use tecora_be.Acceptances.Pdf.Content.{content_of, build_pdf_content}
use tecora_be.Acceptances.Pdf.Render.{document_of, render}

-- The signature is an image: the trimmed text, or what stands behind the first comma of a data URL, is
-- Base64 of an image of a known format, of which a JPEG can be made.
pub record IsImage (go : Graphics) (input : Text) : Type 0 where
  pub given : is_empty (trim_space input) ≡ false
  pub text : Text
  pub text_given : Carries (trim_space input) text
  pub bytes : List ℕ
  pub text_read : go.decode_base64 text ≡ some bytes
  pub picture : Picture
  pub bytes_read : go.decode_image bytes ≡ some picture
  pub jpeg : List ℕ
  pub jpeg_made : picture.jpeg ≡ ok jpeg

module _ (go : Graphics) where
  image_inv :
      (input : Text) (image : ImageObject)
      → signature_image_object go input ≡ ok image
      → IsImage go input
  unfolding signature_image_object
  image_inv input image h = elim (Bool-cases (is_empty (trim_space input))) [
    | inl blank ↦ ground arith
    | inr given ↦ elim (Option-cases (payload (trim_space input))) [
      | inl none_given ↦ ground arith
      | inr (text, text_given) ↦ elim (Option-cases (go.decode_base64 text)) [
        | inl unread ↦ ground arith
        | inr (bytes, text_read) ↦ elim (Option-cases (go.decode_image bytes)) [
          | inl unknown ↦ ground arith
          | inr (picture, bytes_read) ↦ elim (Result-cases picture.jpeg) [
            | inr (e, failed) ↦ ground arith
            | inl (jpeg, jpeg_made) ↦ record {
              given = given;
              text = text;
              text_given = payload-Carries (trim_space input) text text_given;
              bytes = bytes;
              text_read = text_read;
              picture = picture;
              bytes_read = bytes_read;
              jpeg = jpeg;
              jpeg_made = jpeg_made;
            }
          ]
        ]
      ]
    ]
  ]

  abbrev object_made : {input : Text} → IsImage go input → ImageObject
  object_made i = record {
    object = picture_object i.picture.width i.picture.height i.jpeg;
    width = i.picture.width;
    height = i.picture.height;
  }

  image_made :
      (input : Text) (i : IsImage go input) → signature_image_object go input ≡ ok (object_made i)
  unfolding signature_image_object
  image_made input i = rw i.given (
      ap (decoded go) (payload_of_Carries (trim_space input) i.text i.text_given)
      ∙ (ap (decoded_bytes go) i.text_read
          ∙ (ap pictured i.bytes_read ∙ ap (encoded i.picture.width i.picture.height) i.jpeg_made)))

  document_inv :
      (r : AcceptanceRow) (signature : Result ImageObject) (doc : PdfDocument)
      → document_of (content_of go r signature) ≡ ok doc
      → (image : ImageObject) × (signature ≡ ok image)
  document_inv r (err e) doc h = cc
  document_inv r (ok image) doc h = (image, refl)

  -- `Render` makes a document of a record exactly if its signature, trimmed, is not empty, and the text,
  -- or what stands behind the first comma of a text that begins with "data:", is Base64 of an image of a
  -- known format, of which a JPEG can be made.
  pub render_iff :
      (r : AcceptanceRow)
      → ((doc : PdfDocument) × (render go r ≡ ok doc)) ↔ IsImage go r.signature_image_base64
  unfolding render build_pdf_content
  render_iff r = (
    λ (doc, h).
        let (image, made) =
          document_inv r (signature_image_object go r.signature_image_base64) doc h in
        image_inv r.signature_image_base64 image made,
    λ i.
        let document = λ (o : Result ImageObject). document_of (content_of go r o) in
        (_, ap document (image_made r.signature_image_base64 i)),
  )
