-- ===== src/Server/Entry/Public.antt =====
-- What the server of internal/server/server.go does for a request without a login.
use tecora_be.Prelude.{ℕ, ◌≡◌, refl, ◌⊎◌, inl, inr, true, false, List, Bool, String}
use tecora_be.Text.{Text}
use tecora_be.Http.{reply_error}
use tecora_be.Gin.{Claims, Context}
use tecora_be.Middleware.Auth.Guards.{IsVerified}
use tecora_be.Middleware.Cors.{Headers, read_origins, origin_headers, cors}
use tecora_be.Acceptances.Service.{World}
use tecora_be.Server.Routes.{App}
use tecora_be.Server.Routes.Login.{serve-IsVerified}
use tecora_be.Server.Entry.{
  Target, health, route, unmatched, Reply, routed, answer, after_cors, handle,
}

-- No claims, no row and no document is in the reply.
abbrev pub IsPublic : Reply → Type 0
IsPublic (routed response) =
    (status : ℕ) × (message : String) × (response ≡ reply_error status message)
IsPublic _ = Unit

-- The reply is public, and the tables and the bucket are as before.
abbrev pub IsHarmless : World → Reply → World → Type 0
IsHarmless w reply w' = IsPublic reply × (w'.db.tables ≡ w.db.tables) × (w'.bucket ≡ w.bucket)

answer-IsHarmless :
    (app : App) (c : Context) (target : Target) (w : World)
    → IsHarmless w (answer app c target w).0 (answer app c target w).1
      ⊎ ((cl : Claims) × IsVerified app.verifier c cl)
answer-IsHarmless app c (health pings) w = inl (tt, refl, refl)
answer-IsHarmless app c unmatched w = inl (tt, refl, refl)
answer-IsHarmless app c (route r) w = elim (serve-IsVerified app c w r) [
  | inl refused ↦
      inl ((refused.status, refused.message, refused.answer), refused.tables, refused.bucket)
  | inr verified ↦ inr verified
]

after_cors-IsHarmless :
    {V : Type 0} (headers : Headers) (ends : Bool) (a : Reply × World) (w : World)
    → IsHarmless w a.0 a.1 ⊎ V
    → IsHarmless w (after_cors (headers, ends) a w).1 (after_cors (headers, ends) a w).2
      ⊎ ((ends ≡ false) × V)
after_cors-IsHarmless headers true a w h = inl (tt, refl, refl)
after_cors-IsHarmless headers false a w (inl harmless) = inl harmless
after_cors-IsHarmless headers false a w (inr v) = inr (refl, v)

-- Any request to the server is answered without claims, rows or documents and leaves the tables and
-- the bucket alone, or it bears a token that the server's verifier accepts; an OPTIONS request is
-- always answered so.
pub handle-IsHarmless :
    (origins : List Text) (app : App) (c : Context) (target : Target) (w : World)
    → IsHarmless w (handle origins app c target w).1 (handle origins app c target w).2
      ⊎ ((c.request.is_options ≡ false) × ((cl : Claims) × IsVerified app.verifier c cl))
unfolding handle cors
handle-IsHarmless origins app c target w =
    after_cors-IsHarmless (origin_headers (read_origins origins) c.request.origin)
      c.request.is_options (answer app c target w) w (answer-IsHarmless app c target w)
