-- ===== src/Clerk/Verifier.antt =====
-- internal/auth/clerk/verifier.go, without its keys.
use tecora_be.Prelude.{
  ℕ, ◌*◌, ◌-◌, ◌^◌, Bool, true, false, not, ◌&&◌, ◌||◌, List, [], ◌∷◌, ◌++◌, Option, none, some,
  any, is_empty, ltb, ◌==◌, if◌then◌else◌,
}
use tecora_be.Prelude.Int.{negsuc, pos, ℤ}
use tecora_be.Text.{Text, codes, text_eq, trim_space}
use tecora_be.Text.Split.{split}
use tecora_be.Gin.{Audience, Claims}
use tecora_be.Middleware.Auth.{not_configured, invalid, Verified, claims, refused, TokenVerifier}
use tecora_be.Clerk.Jwks.{Cache, Codec, JwtHeader, PublicKey, Readings, key_for_kid}

-- internal/config/config.go
pub record ClerkConfig : Type 0 where
  pub issuer_url : Text
  pub jwks_url : Text
  pub audience : Text

unfoldable pub is_enabled : ClerkConfig → Bool
unfolding trim_space
is_enabled cfg =
    not (is_empty (trim_space cfg.issuer_url)) && not (is_empty (trim_space cfg.jwks_url))

-- From here on `time.Unix` wraps around: seconds since the year 1 leave the `int64`.
abbrev pub unix_limit : ℕ
unix_limit = 2 ^ 63 - 62135596800

-- `time.Unix(expiry, 0).Before(now)`
unfoldable pub is_before : ℤ → ℕ → Bool
is_before (negsuc n) now = true
is_before (pos s) now = if ltb s unix_limit then ltb (s * 1000000000) now else true

-- `time.Unix(notBefore, 0).After(now)`
unfoldable pub is_after : ℤ → ℕ → Bool
is_after (negsuc n) now = false
is_after (pos s) now = if ltb s unix_limit then ltb now (s * 1000000000) else false

unfoldable pub is_zero : ℤ → Bool
is_zero (pos s) = s == 0
is_zero (negsuc n) = false

unfoldable pub audience_matches : Audience → Text → Bool
unfolding text_eq
audience_matches Audience.absent expected = false
audience_matches Audience.other expected = false
audience_matches (Audience.single s) expected = text_eq s expected
audience_matches (Audience.multiple items) expected = any (λ item. text_eq item expected) items

unfoldable pub validate_claims : ClerkConfig → Readings → Claims → Bool
unfolding text_eq is_before is_after is_zero audience_matches
validate_claims cfg r cl =
    text_eq cl.issuer cfg.issuer_url
    && not (is_before cl.expiry r.expiry_at)
    && not (not (is_zero cl.not_before) && is_after cl.not_before r.not_before_at)
    && (is_empty cfg.audience || audience_matches cl.audience cfg.audience)

-- The three parts of a token, decoded.
pub record Jwt : Type 0 where
  pub header : JwtHeader
  pub payload : List ℕ
  pub signing_input : Text
  pub signature : List ℕ

module _ (codec : Codec) where
  abbrev pub decode_parts : List Text → Option Jwt
  decode_parts (h ∷ p ∷ s ∷ []) = elim (codec.decode_base64 h) [
    | none ↦ none
    | some header_bytes ↦ elim (codec.decode_base64 p) [
      | none ↦ none
      | some payload ↦ elim (codec.decode_base64 s) [
        | none ↦ none
        | some signature ↦ elim (codec.read_header header_bytes) [
          | none ↦ none
          | some header ↦ some (record {
            header = header;
            payload = payload;
            signing_input = h ++ b'.' ∷ p;
            signature = signature;
          })
        ]
      ]
    ]
  ]
  decode_parts _ = none

  -- `splitJWT`
  unfoldable pub split_jwt : Text → Option Jwt
  unfolding split
  split_jwt token = decode_parts (split b'.' token)

  -- `Verify` from the decoding of the claims on
  abbrev pub verify_claims : ClerkConfig → Readings → Option Claims → Verified
  verify_claims cfg r none = refused invalid
  verify_claims cfg r (some cl) = if validate_claims cfg r cl then claims cl else refused invalid

  -- … from the answer of `keyForKID` on
  abbrev pub verify_signature :
      ClerkConfig → Readings → Jwt → Option PublicKey × Cache → Verified × Cache
  verify_signature cfg r jwt (none, cache) = (refused invalid, cache)
  verify_signature cfg r jwt (some key, cache) =
      if codec.is_signed key jwt.signing_input jwt.signature
      then (verify_claims cfg r (codec.read_claims jwt.payload), cache)
      else (refused invalid, cache)

  -- … from the answer of `splitJWT` on
  abbrev pub verify_jwt : ClerkConfig → Readings → Option Jwt → Cache → Verified × Cache
  verify_jwt cfg r none cache = (refused invalid, cache)
  verify_jwt cfg r (some jwt) cache =
      if text_eq jwt.header.alg (codes "RS256")
      then verify_signature cfg r jwt (key_for_kid codec r jwt.header.kid cache)
      else (refused invalid, cache)

  unfoldable pub verify : ClerkConfig → Readings → Text → Cache → Verified × Cache
  unfolding is_enabled split_jwt key_for_kid validate_claims text_eq
  verify cfg r token cache =
      if is_enabled cfg
      then verify_jwt cfg r (split_jwt token) cache
      else (refused not_configured, cache)

  -- The verifier as one request meets it.
  abbrev pub token_verifier : ClerkConfig → Readings → Cache → TokenVerifier
  token_verifier cfg r cache = record {
    enabled = is_enabled cfg;
    verify = λ token. (verify cfg r token cache).0;
  }
