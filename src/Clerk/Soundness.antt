-- ===== src/Clerk/Soundness.antt =====
-- Which tokens `Verify` of internal/auth/clerk/verifier.go accepts, and where the keys come from.
use tecora_be.Prelude.{ℕ, ◌+◌, ◌*◌, ◌≤◌, ◌<◌, ◌≡◌, ◌⊎◌, true, List, [], ◌∷◌, ◌++◌, some}
use tecora_be.Prelude.Int.{pos}
use tecora_be.Text.{Text, codes}
use tecora_be.Gin.{Claims}
use tecora_be.Clerk.Jwks.{Codec, PublicKey, Readings, Cache, cache_ttl, find_key, fetched_keys}
use tecora_be.Clerk.Verifier.{ClerkConfig, is_enabled, Jwt, unix_limit, audience_matches}

-- The claims are those of the configured issuer and audience, have not expired, and are already valid.
pub record IsCurrent (cfg : ClerkConfig) (r : Readings) (cl : Claims) : Type 0 where
  pub issuer : cl.issuer ≡ cfg.issuer_url
  pub expiry : (s : ℕ) × (cl.expiry ≡ pos s) × (r.expiry_at ≤ s * 1000000000)
  pub not_before :
      (s : ℕ) → cl.not_before ≡ pos s → s < unix_limit → s * 1000000000 ≤ r.not_before_at
  pub audience : (cfg.audience ≡ []) ⊎ (audience_matches cl.audience cfg.audience ≡ true)

module _ (codec : Codec) where
  -- The key is in the cache, which is not too old, or in the answer to a fetch made now.
  abbrev pub IsTrusted : Readings → Cache → Text → PublicKey → Type 0
  IsTrusted r cache kid key =
      ((find_key kid cache.keys ≡ some key) × (r.looked_at < cache.cached_at + cache_ttl))
      ⊎ ((keys : List (Text × PublicKey)) × (fetched_keys codec r.fetch ≡ some keys)
          × (find_key kid keys ≡ some key))

  -- What `Verify` has established of a token that it accepts.
  pub record IsAccepted (cfg : ClerkConfig) (r : Readings) (cache : Cache) (token : Text)
      (cl : Claims) : Type 0 where
    pub enabled : is_enabled cfg ≡ true
    pub jwt : Jwt
    pub signature : Text
    pub parts : token ≡ jwt.signing_input ++ b'.' ∷ signature
    pub signature_read : codec.decode_base64 signature ≡ some jwt.signature
    pub alg : jwt.header.alg ≡ codes "RS256"
    pub key : PublicKey
    pub trusted : IsTrusted r cache jwt.header.kid key
    pub signed : codec.is_signed key jwt.signing_input jwt.signature ≡ true
    pub payload : codec.read_claims jwt.payload ≡ some cl
    pub current : IsCurrent cfg r cl
