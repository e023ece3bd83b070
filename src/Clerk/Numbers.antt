-- ===== src/Clerk/Numbers.antt =====
-- The numbers of the keys of internal/auth/clerk/verifier.go.
use native.Mathlib.Nat.{pow-suc}
use tecora_be.Prelude.{ℕ, ◌+◌, ◌*◌, ◌%◌, ◌^◌, ◌<◌, ◌≡◌, refl, ap, ◌∙◌, List, [], ◌∷◌, arith, length}
use tecora_be.Prelude.Int.{pos}
use tecora_be.Clerk.Jwks.{bits64, int64, exponent_from, set_bytes}

-- The number that bytes write, the first byte the highest.
unfoldable pub big_endian : List ℕ → ℕ
big_endian [] = 0
big_endian (b ∷ bytes) = b * 256 ^ length bytes + big_endian bytes

set_bytes_from :
    (n : ℕ) (bytes : List ℕ) → set_bytes n bytes ≡ n * 256 ^ length bytes + big_endian bytes
unfolding set_bytes big_endian
set_bytes_from n [] = omega arith
set_bytes_from n (b ∷ bytes) =
    let power : 256 ^ length (b ∷ bytes) ≡ 256 * 256 ^ length bytes =
      grind (arith, pow-suc 256 (length bytes)) in
    set_bytes_from (n * 256 + b) bytes ∙ rw power (grind arith)

-- `SetBytes` makes the number that the bytes write.
pub set_bytes-big_endian : (bytes : List ℕ) → set_bytes 0 bytes ≡ big_endian bytes
set_bytes-big_endian bytes = omega (arith, set_bytes_from 0 bytes)

bits64-int64 : (w : ℕ) → w < 2 ^ 64 → bits64 (int64 w) ≡ w
unfolding bits64 int64
bits64-int64 w h = ground arith

exponent_from_wraps :
    (n : ℕ) (bytes : List ℕ)
    → exponent_from (int64 (n % 2 ^ 64)) bytes ≡ int64 (set_bytes n bytes % 2 ^ 64)
unfolding exponent_from set_bytes
exponent_from_wraps n [] = refl
exponent_from_wraps n (b ∷ bytes) =
    let bits = bits64-int64 (n % 2 ^ 64) (omega arith) in
    let step : (bits64 (int64 (n % 2 ^ 64)) * 256 + b) % 2 ^ 64 ≡ (n * 256 + b) % 2 ^ 64 =
      omega (arith, bits) in
    ap (λ m. exponent_from (int64 m) bytes) step ∙ exponent_from_wraps (n * 256 + b) bytes

-- The exponent of a key is the signed 64-bit number whose bits are the last 64 of the number that its
-- bytes write; so a number below 2^63 is read as it is meant.
pub exponent_from-big_endian :
    (bytes : List ℕ)
    → (exponent_from (pos 0) bytes ≡ int64 (big_endian bytes % 2 ^ 64))
      × (big_endian bytes < 2 ^ 63 → exponent_from (pos 0) bytes ≡ pos (big_endian bytes))
unfolding int64
exponent_from-big_endian bytes =
    let wrapped : exponent_from (pos 0) bytes ≡ int64 (big_endian bytes % 2 ^ 64) =
      exponent_from_wraps 0 bytes ∙ ap (λ n. int64 (n % 2 ^ 64)) (set_bytes-big_endian bytes) in
    (wrapped, λ small. wrapped ∙ ground arith)
