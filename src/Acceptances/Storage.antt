-- ===== src/Acceptances/Storage.antt =====
-- internal/acceptances/storage.go over the documents of a bucket. `ifGenerationMatch=0` asks the
-- service to store an object only under a new name. The service itself is not in the repository:
-- how it answers the n-th request is part of the state's parameters.
pub mod Objects
pub mod Token
use tecora_be.Prelude.{
  ℕ, ◌+◌, Bool, true, false, not, ◌||◌, List, [], ◌∷◌, Option, none, some, is_empty, ltb, leb, ◌==◌,
  if◌then◌else◌,
}
use tecora_be.Text.{Text, codes, text_eq, trim_space}
use tecora_be.Db.{Error, object_not_found, object_exists, other, Result, ok, err}
use tecora_be.Acceptances.Model.{PdfDocument}

-- `handled`: the service does what is asked. `answered`: it does nothing, and answers with a status,
-- the text of the error that the code formats of it, and a body under its content type. The others
-- are failures of the transport, before and after the service has acted.
pub data Delivery : Type 0 where
  handled : Delivery
  answered : ℕ → Text → PdfDocument → Delivery
  lost_request : Error → Delivery
  lost_answer : Error → Delivery

-- `token n` is what `s.tokens.Token` returns for the n-th request; `step` counts the requests.
pub record Bucket : Type 0 where
  pub token : ℕ → Result Text
  pub delivery : ℕ → Delivery
  pub step : ℕ
  pub objects : List (Text × PdfDocument)

unfoldable pub find_object : Text → List (Text × PdfDocument) → Option PdfDocument
find_object name [] = none
find_object name ((key, doc) ∷ objects) =
    if text_eq key name then some doc else find_object name objects

-- The status of the answer, as `Upload` reads it.
unfoldable pub upload_result : ℕ → Text → Result (Unit {0})
upload_result status text =
    if status == 412
    then err object_exists
    else if ltb status 200 || leb 300 status
    then err (other text)
    else ok tt

abbrev tick : Bucket → Bucket
tick b = record b { step = b.step + 1 }

abbrev with_object : Text → PdfDocument → Bucket → Bucket
with_object name doc b = record b { objects = (name, doc) ∷ b.objects }

-- The service's own handling of an upload: its status, and the bucket.
abbrev store_new : Text → PdfDocument → Bucket → Option PdfDocument → ℕ × Bucket
store_new name doc b (some _) = (412, b)
store_new name doc b none = (200, with_object name doc b)

abbrev deliver_upload : Text → PdfDocument → Bucket → Delivery → Result (Unit {0}) × Bucket
deliver_upload name doc b handled =
    let (status, b') = store_new name doc b (find_object name b.objects) in
    (upload_result status [], b')
deliver_upload name doc b (answered status text _) = (upload_result status text, b)
deliver_upload name doc b (lost_request e) = (err e, b)
deliver_upload name doc b (lost_answer e) =
    (err e, (store_new name doc b (find_object name b.objects)).1)

abbrev upload_with : Text → PdfDocument → Bucket → Result Text → Result (Unit {0}) × Bucket
upload_with name doc b (err e) = (err e, tick b)
upload_with name doc b (ok token) = deliver_upload name doc (tick b) (b.delivery b.step)

unfoldable pub upload : Text → PdfDocument → Bucket → Result (Unit {0}) × Bucket
unfolding find_object upload_result trim_space
upload key doc b = upload_with (trim_space key) doc b (b.token b.step)

-- The document as `Download` returns it.
unfoldable pub received : PdfDocument → PdfDocument
received doc =
    let content_type = trim_space doc.content_type in
    record {
      bytes = doc.bytes;
      content_type = if is_empty content_type then codes "application/pdf" else content_type;
    }

unfoldable pub download_result : ℕ → Text → PdfDocument → Result PdfDocument
unfolding received
download_result status text body =
    if status == 404
    then err object_not_found
    else if ltb status 200 || leb 300 status
    then err (other text)
    else ok (received body)

abbrev deliver_download : Option PdfDocument → Delivery → Result PdfDocument
deliver_download none handled = err object_not_found
deliver_download (some doc) handled = download_result 200 [] doc
deliver_download found (answered status text body) = download_result status text body
deliver_download found (lost_request e) = err e
deliver_download found (lost_answer e) = err e

abbrev download_with : Text → Bucket → Result Text → Result PdfDocument
download_with name b (err e) = err e
download_with name b (ok token) = deliver_download (find_object name b.objects) (b.delivery b.step)

unfoldable pub download : Text → Bucket → Result PdfDocument × Bucket
unfolding find_object download_result trim_space
download key b = (download_with (trim_space key) b (b.token b.step), tick b)
