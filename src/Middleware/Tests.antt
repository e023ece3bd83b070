-- ===== src/Middleware/Tests.antt =====
-- Runs of the middlewares, and the theorems about them at concrete requests.
use tecora_be.Prelude.{◌≡◌, refl, ◌↔◌, ◌⊎◌, [], ◌∷◌, none, some}
use tecora_be.Text.{codes, text_eq}
use tecora_be.Gin.{Claims, Key, Value, Context, set, abort, next}
use tecora_be.Middleware.Auth.{clerk_auth, clerk_admin_allowlist, clerk_org_scope, current_claims}
use tecora_be.Middleware.Auth.Guards.{
  IsVerified, IsListed, clerk_auth_iff, clerk_admin_allowlist_iff,
}
use tecora_be.Middleware.Cors.{cors}
use tecora_be.Middleware.Cors.Configured.{IsConfigured, cors-IsConfigured}
use tecora_be.Samples.{ann_claims, verifier, context}

abbrev behind : Context
unfolding set
behind = set Key.claims (Value.claims (some ann_claims)) context

clerk_auth_runs :
    (clerk_auth (some verifier) context ≡ next behind)
    × (clerk_auth none context ≡ abort 503 "auth not configured")
    × (clerk_auth (some verifier) (record context {
      request = record context.request { authorization = codes "Basic abc" };
    })
        ≡ abort 401 "authorization header must use bearer token")
unfolding clerk_auth behind
clerk_auth_runs = (refl, refl, refl)

allowlist_runs :
    (clerk_admin_allowlist (codes "  " ∷ codes "user_ann " ∷ []) behind ≡ next behind)
    × (clerk_admin_allowlist (codes "user_bob" ∷ []) behind ≡ abort 403 "admin access denied")
    × (clerk_admin_allowlist (codes " " ∷ []) behind ≡ abort 503 "admin auth not configured")
    × (clerk_admin_allowlist (codes "user_ann" ∷ []) context ≡ abort 401 "missing clerk claims")
unfolding clerk_admin_allowlist behind text_eq
allowlist_runs = (refl, refl, refl, refl)

clerk_auth_iff_example : (clerk_auth (some verifier) context ≡ next behind) ↔ (
    (cl : Claims) × IsVerified (some verifier) context cl
    × (behind ≡ set Key.claims (Value.claims (some cl)) context))
clerk_auth_iff_example = clerk_auth_iff (some verifier) context behind

clerk_admin_allowlist_iff_example :
    (clerk_admin_allowlist (codes "user_ann " ∷ []) behind ≡ next behind) ↔ (
      (behind ≡ behind)
      × ((cl : Claims) × (current_claims behind ≡ some cl)
          × IsListed (codes "user_ann " ∷ []) cl.subject))
clerk_admin_allowlist_iff_example = clerk_admin_allowlist_iff (codes "user_ann " ∷ []) behind behind

abbrev scoped : Context
unfolding set
scoped = set Key.org_slug (Value.text (codes "Demo-Alpha")) behind

scope_runs : clerk_org_scope behind ≡ next scoped
unfolding clerk_org_scope behind scoped
scope_runs = refl

cors_runs :
    (cors (codes " https://a.example " ∷ []) context.request).0.allow_origin
    ≡ some (codes "https://a.example")
unfolding cors text_eq
cors_runs = refl

cors-IsConfigured_example :
    IsConfigured (codes " https://a.example " ∷ []) (codes "https://a.example")
    × ((codes "https://a.example" ≡ codes "*")
        ⊎ (codes "https://a.example" ≡ context.request.origin))
cors-IsConfigured_example =
    cors-IsConfigured (codes " https://a.example " ∷ []) context.request (codes "https://a.example")
      cors_runs
