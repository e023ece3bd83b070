-- ===== src/Regex.antt =====
-- Go's regexp package as far as internal/organizations/models.go uses it: patterns anchored at
-- both ends, over classes, sequences, groups, `+` and `*`. `Matches` is the language of a pattern.
pub mod Derivative
use tecora_be.Prelude.{ℕ, ◌≡◌, Bool, true, false, ◌&&◌, ◌||◌, List, [], ◌∷◌, ◌++◌, if◌then◌else◌}
use tecora_be.Text.{Text}

pub data Regex : Type 0 where
  nothing : Regex
  empty : Regex
  class : (ℕ → Bool) → Regex
  cat : Regex → Regex → Regex
  alt : Regex → Regex → Regex
  star : Regex → Regex

abbrev pub plus : Regex → Regex
plus r = cat r (star r)

pub data Matches : Regex → Text → Type 0 where
  an_empty : {s : Text} → s ≡ [] → Matches empty s
  a_class : {p : ℕ → Bool} {s : Text} (c : ℕ) → s ≡ c ∷ [] → p c ≡ true → Matches (class p) s
  a_cat :
      {r q : Regex} {s : Text} (x y : Text)
      → s ≡ x ++ y
      → Matches r x
      → Matches q y
      → Matches (cat r q) s
  left : {r q : Regex} {s : Text} → Matches r s → Matches (alt r q) s
  right : {r q : Regex} {s : Text} → Matches q s → Matches (alt r q) s
  stop : {r : Regex} {s : Text} → s ≡ [] → Matches (star r) s
  again :
      {r : Regex} {s : Text} (c : ℕ) (x y : Text)
      → s ≡ c ∷ (x ++ y)
      → Matches r (c ∷ x)
      → Matches (star r) y
      → Matches (star r) s

unfoldable pub nullable : Regex → Bool
nullable nothing = false
nullable empty = true
nullable (class p) = false
nullable (cat r q) = nullable r && nullable q
nullable (alt r q) = nullable r || nullable q
nullable (star r) = true

-- What is left to match after the code point `c`.
unfoldable pub derivative : ℕ → Regex → Regex
unfolding nullable
derivative c nothing = nothing
derivative c empty = nothing
derivative c (class p) = if p c then empty else nothing
derivative c (cat r q) =
    alt (cat (derivative c r) q) (if nullable r then derivative c q else nothing)
derivative c (alt r q) = alt (derivative c r) (derivative c q)
derivative c (star r) = cat (derivative c r) (star r)

-- `MatchString` of the pattern between `^` and `$`
unfoldable pub match_string : Regex → Text → Bool
unfolding nullable derivative
match_string r [] = nullable r
match_string r (c ∷ s) = match_string (derivative c r) s
