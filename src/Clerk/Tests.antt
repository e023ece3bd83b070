-- ===== src/Clerk/Tests.antt =====
-- A run of the verifier, and the theorems about it at concrete inputs.
use mathlib.Core.List.{Memᴰ}
use tecora_be.Prelude.{◌%◌, ◌^◌, ◌<◌, ◌≡◌, ◌⊎◌, List, [], ◌∷◌}
use tecora_be.Text.{Text, codes}
use tecora_be.Prelude.Int.{pos}
use tecora_be.Clerk.Jwks.{Readings, int64, exponent_from}
use tecora_be.Clerk.Numbers.{big_endian, exponent_from-big_endian}
use tecora_be.Clerk.Keys.{run, IsFetched, run-IsFetched}
use tecora_be.Samples.{clerk_config, clerk_codec, readings}

exponent_from-big_endian_example :
    (exponent_from (pos 0) (1 ∷ 0 ∷ 1 ∷ []) ≡ int64 (big_endian (1 ∷ 0 ∷ 1 ∷ []) % 2 ^ 64))
    × (big_endian (1 ∷ 0 ∷ 1 ∷ []) < 2 ^ 63
        → exponent_from (pos 0) (1 ∷ 0 ∷ 1 ∷ []) ≡ pos (big_endian (1 ∷ 0 ∷ 1 ∷ [])))
exponent_from-big_endian_example = exponent_from-big_endian (1 ∷ 0 ∷ 1 ∷ [])

abbrev calls : List (Readings × Text)
calls = (readings, codes "h.p.s") ∷ (readings, codes "nonsense") ∷ []

run-IsFetched_example :
    ((run clerk_codec clerk_config calls).keys ≡ [])
    ⊎ ((c : Readings × Text) × Memᴰ c calls
        × IsFetched clerk_codec clerk_config (run clerk_codec clerk_config calls) c.0)
run-IsFetched_example = run-IsFetched clerk_codec clerk_config calls
