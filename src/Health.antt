-- ===== src/Health.antt =====
-- internal/health/handler.go. The answer of `Ping` within the timeout is a parameter, and the field
-- `time` of the body is left out.
use tecora_be.Prelude.{Bool, true, false, Option, none, some}
use tecora_be.Text.{Text, codes}
use tecora_be.Http.{Response, reply}

-- The body of the answer.
pub record Health : Type 0 where
  pub service : Text
  pub status : Text
  pub database : Text

abbrev report : Text → Text → Text → Health
report service status database = record { service = service; status = status; database = database }

-- `none` is a handler without a database, else whether `Ping` succeeds.
unfoldable pub get : Text → Option Bool → Response Health
get service none = reply 200 (report service (codes "ok") (codes "unknown"))
get service (some true) = reply 200 (report service (codes "ok") (codes "up"))
get service (some false) = reply 503 (report service (codes "degraded") (codes "down"))
