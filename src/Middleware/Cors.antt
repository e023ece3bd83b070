-- ===== src/Middleware/Cors.antt =====
-- internal/middleware/cors.go
pub mod Configured
use tecora_be.Prelude.{
  Bool, true, false, List, [], ◌∷◌, Option, none, some, any, is_empty, if◌then◌else◌,
}
use tecora_be.Text.{Text, codes, text_eq, trim_space}
use tecora_be.Gin.{Request}

-- The loop over the configured origins: the set `allowed` as a list, and `allowAll`.
pub record Origins : Type 0 where
  pub allowed : List Text
  pub allow_all : Bool

unfoldable pub add_origin : Text → Origins → Origins
unfolding trim_space text_eq
add_origin raw o =
    let origin = trim_space raw in
    if is_empty origin
    then o
    else if text_eq origin (codes "*")
    then record o { allow_all = true }
    else record o { allowed = origin ∷ o.allowed }

unfoldable pub read_origins : List Text → Origins
unfolding add_origin
read_origins [] = record { allowed = []; allow_all = false }
read_origins (raw ∷ raws) = add_origin raw (read_origins raws)

-- The headers that the middleware sets. `vary` stands for the three with fixed values: Vary,
-- Access-Control-Allow-Methods and Access-Control-Allow-Headers.
pub record Headers : Type 0 where
  pub allow_origin : Option Text
  pub vary : Bool

unfoldable pub origin_headers : Origins → Text → Headers
origin_headers o origin =
    if is_empty origin
    then record { allow_origin = none; vary = false }
    else if o.allow_all
    then record { allow_origin = some (codes "*"); vary = true }
    else if any (text_eq origin) o.allowed
    then record { allow_origin = some origin; vary = true }
    else record { allow_origin = none; vary = true }

-- The headers, and the status with which an OPTIONS request ends here.
unfoldable pub cors : List Text → Request → Headers × Bool
unfolding read_origins origin_headers
cors allowed_origins r = (origin_headers (read_origins allowed_origins) r.origin, r.is_options)
