-- ===== src/Acceptances/Handler.antt =====
-- internal/acceptances/handler.go
pub mod Tenant
use tecora_be.Prelude.{
  ℕ, Bool, true, false, not, ◌&&◌, ◌||◌, List, [], ◌∷◌, ◌++◌, Option, none, some, is_empty,
  if◌then◌else◌,
}
use tecora_be.Text.{Text, codes, text_eq, trim_space}
use tecora_be.Http.{Response, reply, reply_error}
use tecora_be.Db.{
  AcceptanceRow, PdfStatus, Package, Error, not_found, invalid_input, pdf_not_ready, Result, ok,
  err,
}
use tecora_be.Gin.{Context}
use tecora_be.Users.Context.{current_organization}
use tecora_be.Acceptances.Model.{
  Submission, PdfDocument, AcceptedResponse, StatusResponse, accepted_response, status_response,
}
use tecora_be.Acceptances.Service
use tecora_be.Acceptances.Service.{Service, World}

unfoldable pub write_error : {A : Type 0} → Error → Response A
write_error (invalid_input Package.acceptances) = reply_error 400 "invalid acceptance input"
write_error (not_found Package.acceptances) = reply_error 404 "acceptance not found"
write_error pdf_not_ready = reply_error 404 "acceptance pdf not found"
write_error _ = reply_error 500 "internal server error"

abbrev pub respond : {A B : Type 0} → ℕ → (A → B) → Result A × World → Response B × World
respond status f (ok a, w) = (reply status (f a), w)
respond status f (err e, w) = (write_error e, w)

unfoldable pub submit :
    Service → Context → Text → Option Submission → World → Response AcceptedResponse × World
unfolding write_error accepted_response
submit s c param body w = elim (current_organization c) [
  | none ↦ (reply_error 401 "missing current organization", w)
  | some org ↦
      let work_order_id = trim_space param in
      if is_empty work_order_id then (reply_error 400 "invalid work order id", w) else elim body [
        | none ↦ (reply_error 400 "invalid json body", w)
        | some req ↦
            if not (text_eq (trim_space req.work_order_id) work_order_id)
            then (reply_error 400 "work order id mismatch", w)
            else respond 202 accepted_response (Service.submit s org.id req w)
      ]
]

-- The parts of the request that `absoluteURL` reads.
pub record Origin : Type 0 where
  pub forwarded_proto : Text
  pub tls : Bool
  pub host : Text

unfoldable pub absolute_url : Origin → Text → Text
unfolding trim_space
absolute_url o path =
    let forwarded = trim_space o.forwarded_proto in
    let scheme =
      if is_empty forwarded then (if o.tls then codes "https" else codes "http") else forwarded in
    let host = trim_space o.host in
    if is_empty host then path else scheme ++ (codes "://" ++ (host ++ path))

unfoldable pub pdf_url : Origin → AcceptanceRow → Option Text
unfolding absolute_url
pdf_url o r = elim r.pdf_status [
  | PdfStatus.generated ↦ elim r.pdf_storage_key [
    | none ↦ none
    | some _ ↦ some (absolute_url o (codes "/api/v1/acceptances/" ++ (r.id ++ codes "/pdf")))
  ]
  | _ ↦ none
]

unfoldable pub get_status : Origin → Context → Text → World → Response StatusResponse × World
unfolding write_error status_response pdf_url
get_status o c param w = elim (current_organization c) [
  | none ↦ (reply_error 401 "missing current organization", w)
  | some org ↦
      let id = trim_space param in
      if is_empty id
      then (reply_error 400 "invalid acceptance id", w)
      else respond 200 (λ r. status_response r (pdf_url o r)) (Service.get_status org.id id w)
]

-- The document with the two headers that go out with it.
pub record Inline : Type 0 where
  pub content_type : Text
  pub content_disposition : Text
  pub bytes : List ℕ

unfoldable pub inline : Text → PdfDocument → Inline
inline id doc = record {
  content_type = doc.content_type;
  content_disposition = codes "inline; filename=\"acceptance-" ++ (id ++ codes ".pdf\"");
  bytes = doc.bytes;
}

unfoldable pub get_pdf : Context → Text → World → Response Inline × World
unfolding write_error inline
get_pdf c param w = elim (current_organization c) [
  | none ↦ (reply_error 401 "missing current organization", w)
  | some org ↦
      let id = trim_space param in
      if is_empty id
      then (reply_error 400 "invalid acceptance id", w)
      else respond 200 (inline id) (Service.get_pdf org.id id w)
]
