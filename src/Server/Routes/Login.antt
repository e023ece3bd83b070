-- ===== src/Server/Routes/Login.antt =====
-- The routes of internal/server/server.go behind the verifier of internal/auth/clerk/verifier.go, which
-- `Run` of internal/app/app.go passes to the server.
use mathlib.Core.List.{Memᴰ}
use tecora_be.Prelude.{◌+◌, ◌<◌, refl, ◌⊎◌, inl, inr, List}
use tecora_be.Text.{Text, trim_space}
use tecora_be.Http.{reply}
use tecora_be.Gin.{Claims, Context}
use tecora_be.Middleware.Auth.{clerk_auth, current_claims}
use tecora_be.Middleware.Auth.Guards.{Bears, IsVerified, clerk_auth_iff}
use tecora_be.Clerk.Jwks.{Codec, PublicKey, Readings, cache_ttl}
use tecora_be.Clerk.Document.{IsOffered}
use tecora_be.Clerk.Keys.{run}
use tecora_be.Clerk.Verifier.{ClerkConfig}
use tecora_be.Clerk.Soundness.{IsAccepted}
use tecora_be.Acceptances.Service.{World}
use tecora_be.Server.Routes.{App, Route, Payload, serve}
use tecora_be.Server.Routes.Guarded.{
  IsRefused, before-IsRefused, serve-IsAdmin, serve-IsMemberRequest,
}
use tecora_be.Organizations.Handler.Requests as OrganizationRequests
use tecora_be.Users.Handler.Requests as UserRequests

-- A request to any of these routes is refused with nothing changed, or it bears a token that the
-- server's verifier accepts.
pub serve-IsVerified :
    (app : App) (c : Context) (w : World) (route : Route)
    → IsRefused w (serve app c route w) ⊎ ((cl : Claims) × IsVerified app.verifier c cl)
unfolding serve
serve-IsVerified app c w Route.private_me =
    elim (before-IsRefused (clerk_auth app.verifier c, w.db) w
      (λ c' w'. (reply 200 (Payload.claims (current_claims c')), w')) refl) [
        | inl refused ↦ inl refused
        | inr (c', through, ran) ↦
            let (cl, verified, after) = (clerk_auth_iff app.verifier c c').0 through in
            inr (cl, verified)
      ]
serve-IsVerified app c w (Route.organizations q) =
    elim ((serve-IsAdmin app c w q UserRequests.list).0) [
      | inl refused ↦ inl refused
      | inr (cl, admin, ran) ↦ inr (cl, admin.verified)
    ]
serve-IsVerified app c w (Route.users q) =
    elim ((serve-IsAdmin app c w OrganizationRequests.list q).1) [
      | inl refused ↦ inl refused
      | inr (cl, admin, ran) ↦ inr (cl, admin.verified)
    ]
serve-IsVerified app c w (Route.member q) = elim (serve-IsMemberRequest app c w q) [
  | inl refused ↦ inl refused
  | inr (cl, user, w1, facts, tables_kept, server_kept, bucket_kept, ran) ↦ inr (cl, facts.verified)
]

module _ (codec : Codec) (cfg : ClerkConfig) (r : Readings) (calls : List (Readings × Text)) where
  -- The document that Clerk answers with has the key: to the fetch of this call, or to that of an
  -- earlier call, less than 30 minutes ago.
  abbrev pub IsClerkKey : Text → PublicKey → Type 0
  IsClerkKey kid key =
      IsOffered codec r.fetch kid key
      ⊎ ((c : Readings × Text) × Memᴰ c calls
          × (r.looked_at < c.0.fetched_at + cache_ttl)
          × IsOffered codec c.0.fetch kid key)

  -- The request bears a token that Clerk's verifier accepts with these claims, after these calls, and
  -- the key that it is signed with comes from Clerk.
  pub record IsLoggedIn (c : Context) (cl : Claims) : Type 0 where
    pub token : Text
    pub borne : Bears c.request.authorization token
    pub accepted : IsAccepted codec cfg r (run codec cfg calls) (trim_space token) cl
    pub offered : IsClerkKey accepted.jwt.header.kid accepted.key
