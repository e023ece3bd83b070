-- ===== src/Clerk/Keys.antt =====
-- Where the keys in the cache of internal/auth/clerk/verifier.go come from.
use mathlib.Core.List.{Memᴰ}
use tecora_be.Prelude.{
  ◌≡◌, refl, ◌⊎◌, inl, inr, List, [], ◌∷◌, Option, none, some, arith, Bool-cases, Option-cases,
}
use tecora_be.Text.{Text, codes, text_eq}
use tecora_be.Clerk.Jwks.{
  Codec, PublicKey, Readings, Cache, find_key, fetched_keys, refill, is_fresh, key_for_kid,
}
use tecora_be.Clerk.Document.{IsAnswer, fetched_keys-IsAnswer}
use tecora_be.Clerk.Verifier.{
  ClerkConfig, is_enabled, Jwt, split_jwt, verify_signature, verify_jwt, verify,
}

module _ (codec : Codec) (cfg : ClerkConfig) where
  -- A run of calls of `Verify`, the last one first.
  unfoldable pub run : List (Readings × Text) → Cache
  run [] = record { cached_at = 0; keys = [] }
  run ((r, token) ∷ calls) = (verify codec cfg r token (run calls)).1

  -- The keys in the cache are those of the answer to one fetch, and the time is that of the fetch.
  abbrev pub IsFetched : Cache → Readings → Type 0
  IsFetched cache r = IsAnswer codec r.fetch cache.keys × (cache.cached_at ≡ r.fetched_at)

  refill_cache :
      (r : Readings) (kid : Text) (cache : Cache) (f : Option (List (Text × PublicKey)))
      → fetched_keys codec r.fetch ≡ f
      → ((refill r kid cache f).1 ≡ cache) ⊎ IsFetched (refill r kid cache f).1 r
  unfolding refill
  refill_cache r kid cache none e = inl refl
  refill_cache r kid cache (some keys) e = inr (fetched_keys-IsAnswer codec r.fetch keys e, refl)

  key_for_kid_cache :
      (r : Readings) (kid : Text) (cache : Cache)
      → ((key_for_kid codec r kid cache).1 ≡ cache) ⊎ IsFetched (key_for_kid codec r kid cache).1 r
  unfolding key_for_kid
  key_for_kid_cache r kid cache = elim (Option-cases (find_key kid cache.keys)) [
    | inl absent ↦
        rw (absent, key_for_kid) (refill_cache r kid cache (fetched_keys codec r.fetch) refl)
    | inr (key, found) ↦ elim (Bool-cases (is_fresh r cache)) [
      | inl fresh ↦ inl (ground arith)
      | inr stale ↦
          rw (found, stale, key_for_kid)
            (refill_cache r kid cache (fetched_keys codec r.fetch) refl)
    ]
  ]

  signature_cache :
      (r : Readings) (jwt : Jwt) (k : Option PublicKey × Cache)
      → (verify_signature codec cfg r jwt k).1 ≡ k.1
  signature_cache r jwt (none, cache) = refl
  signature_cache r jwt (some key, cache) =
      elim (Bool-cases (codec.is_signed key jwt.signing_input jwt.signature)) [
        | inl signed ↦ rw signed refl
        | inr forged ↦ rw forged refl
      ]

  jwt_cache :
      (r : Readings) (o : Option Jwt) (cache : Cache)
      → ((verify_jwt codec cfg r o cache).1 ≡ cache)
        ⊎ IsFetched (verify_jwt codec cfg r o cache).1 r
  jwt_cache r none cache = inl refl
  jwt_cache r (some jwt) cache = elim (Bool-cases (text_eq jwt.header.alg (codes "RS256"))) [
    | inr odd ↦ inl (rw odd refl)
    | inl alg ↦
        let found = key_for_kid codec r jwt.header.kid cache in
        let same = signature_cache r jwt found in
        rw (alg, same) (key_for_kid_cache r jwt.header.kid cache)
  ]

  verify_cache :
      (r : Readings) (token : Text) (cache : Cache)
      → ((verify codec cfg r token cache).1 ≡ cache)
        ⊎ IsFetched (verify codec cfg r token cache).1 r
  unfolding verify
  verify_cache r token cache = elim (Bool-cases (is_enabled cfg)) [
    | inr off ↦ inl (rw off refl)
    | inl on ↦ rw on (jwt_cache r (split_jwt codec token) cache)
  ]

  -- After any run of calls the cache is empty, or one of the fetches of the run was answered with a
  -- status of success and a document, and the cache holds the RSA keys with an id of that document, all
  -- of them and no other, each with the modulus that its text writes in Base64 and with the exponent,
  -- of which it keeps the last 64 bits, as a signed number; the later of two with the same id stands
  -- first, and the time is that of this fetch.
  pub run-IsFetched :
      (calls : List (Readings × Text))
      → ((run calls).keys ≡ []) ⊎ ((c : Readings × Text) × Memᴰ c calls × IsFetched (run calls) c.0)
  unfolding run
  run-IsFetched [] = inl refl
  run-IsFetched ((r, token) ∷ calls) = elim (verify_cache r token (run calls)) [
    | inr fetched ↦ inr ((r, token), Memᴰ.head refl, fetched)
    | inl same ↦ elim (run-IsFetched calls) [
      | inl empty ↦ inl (rw same empty)
      | inr (c, member, fetched) ↦ inr (c, Memᴰ.tail member, rw same fetched)
    ]
  ]
