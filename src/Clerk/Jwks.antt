-- ===== src/Clerk/Jwks.antt =====
-- The keys of internal/auth/clerk/verifier.go: the document they come from and their cache. Base64 and
-- JSON, the hash and the RSA signature, and the HTTP client are Go's; they are fields of `Codec` and
-- `Readings`.
use tecora_be.Prelude.{
  ℕ, ◌+◌, ◌*◌, ◌-◌, ◌%◌, ◌^◌, Bool, not, ◌||◌, List, [], ◌∷◌, Option, none, some, is_empty, ltb,
  if◌then◌else◌,
}
use tecora_be.Prelude.Int.{negsuc, pos, ℤ}
use tecora_be.Text.{Text, codes, text_eq}
use tecora_be.Gin.{Claims}

pub record JwtHeader : Type 0 where
  pub alg : Text
  pub kid : Text
  pub typ : Text

pub record PublicKey : Type 0 where
  pub n : ℕ
  pub e : ℤ

-- A key of the JWKS document as it is sent.
pub record JwksKey : Type 0 where
  pub kid : Text
  pub kty : Text
  pub alg : Text
  pub usage : Text
  pub n : Text
  pub e : Text

-- `base64.RawURLEncoding.DecodeString`, `json.Unmarshal` at the two types, and
-- `rsa.VerifyPKCS1v15` of the SHA-256 digest of a text.
pub record Codec : Type 0 where
  pub decode_base64 : Text → Option (List ℕ)
  pub read_header : List ℕ → Option JwtHeader
  pub read_claims : List ℕ → Option Claims
  pub is_signed : PublicKey → Text → List ℕ → Bool

-- The answer to the GET of the JWKS document: no answer, or its status with its body if that is read.
pub data Fetch : Type 0 where
  lost : Fetch
  answered : ℕ → Option (List JwksKey) → Fetch

-- What one call of `Verify` reads from outside: the clock, in nanoseconds, where it looks for the key,
-- after the fetch, and at the two tests of the claims; and the answer to a fetch.
pub record Readings : Type 0 where
  pub looked_at : ℕ
  pub fetch : Fetch
  pub fetched_at : ℕ
  pub expiry_at : ℕ
  pub not_before_at : ℕ

-- `keysByKID` and `cachedAt`. A later entry of a map replaces an earlier one: it stands before it.
pub record Cache : Type 0 where
  pub cached_at : ℕ
  pub keys : List (Text × PublicKey)

unfoldable pub find_key : Text → List (Text × PublicKey) → Option PublicKey
unfolding text_eq
find_key kid [] = none
find_key kid ((k, key) ∷ keys) = if text_eq k kid then some key else find_key kid keys

-- 30 minutes
abbrev pub cache_ttl : ℕ
cache_ttl = 1800000000000

-- The 64 bits of an `int`, and the `int` of 64 bits.
unfoldable pub bits64 : ℤ → ℕ
bits64 (pos n) = n % 2 ^ 64
bits64 (negsuc n) = 2 ^ 64 - 1 - n % 2 ^ 64

unfoldable pub int64 : ℕ → ℤ
int64 w = if ltb w (2 ^ 63) then pos w else negsuc (2 ^ 64 - 1 - w)

-- `exponent = exponent<<8 + int(b)`
unfoldable pub exponent_from : ℤ → List ℕ → ℤ
unfolding bits64 int64
exponent_from exponent [] = exponent
exponent_from exponent (b ∷ bytes) =
    exponent_from (int64 ((bits64 exponent * 256 + b) % 2 ^ 64)) bytes

-- `SetBytes`, which has no bound.
unfoldable pub set_bytes : ℕ → List ℕ → ℕ
set_bytes n [] = n
set_bytes n (b ∷ bytes) = set_bytes (n * 256 + b) bytes

-- `keyForKID` from the answer on
unfoldable pub refill :
    Readings → Text → Cache → Option (List (Text × PublicKey)) → Option PublicKey × Cache
unfolding find_key
refill r kid cache none = (none, cache)
refill r kid cache (some keys) =
    (find_key kid keys, record { cached_at = r.fetched_at; keys = keys })

abbrev pub is_fresh : Readings → Cache → Bool
is_fresh r cache = ltb (r.looked_at - cache.cached_at) cache_ttl

module _ (codec : Codec) where
  -- `rsaPublicKeyFromJWKS`
  unfoldable pub rsa_public_key : Text → Text → Option PublicKey
  unfolding exponent_from set_bytes
  rsa_public_key n_encoded e_encoded = elim (codec.decode_base64 n_encoded) [
    | none ↦ none
    | some n_bytes ↦ elim (codec.decode_base64 e_encoded) [
      | none ↦ none
      | some e_bytes ↦ some (record { n = set_bytes 0 n_bytes; e = exponent_from (pos 0) e_bytes })
    ]
  ]

  -- The loop over the keys of the document; `none` is its early return.
  unfoldable pub read_keys :
      List JwksKey → List (Text × PublicKey) → Option (List (Text × PublicKey))
  unfolding rsa_public_key text_eq
  read_keys [] keys = some keys
  read_keys (key ∷ rest) keys =
      let skipped = read_keys rest keys in
      if is_empty key.kid || not (text_eq key.kty (codes "RSA"))
      then skipped
      else elim (rsa_public_key key.n key.e) [
        | none ↦ none
        | some public_key ↦ read_keys rest ((key.kid, public_key) ∷ keys)
      ]

  -- The keys of the answer, if it is a success that can be read.
  unfoldable pub fetched_keys : Fetch → Option (List (Text × PublicKey))
  unfolding read_keys
  fetched_keys lost = none
  fetched_keys (answered status none) = none
  fetched_keys (answered status (some keys)) =
      if ltb status 200 || ltb 299 status then none else read_keys keys []

  -- `keyForKID`; `none` is its error
  unfoldable pub key_for_kid : Readings → Text → Cache → Option PublicKey × Cache
  unfolding find_key fetched_keys refill
  key_for_kid r kid cache = elim (find_key kid cache.keys) [
    | none ↦ refill r kid cache (fetched_keys r.fetch)
    | some key ↦
        if is_fresh r cache then (some key, cache) else refill r kid cache (fetched_keys r.fetch)
  ]
