-- ===== src/Organizations/Slug.antt =====
-- internal/organizations/models.go: what a slug is, and how one is read from a request.
pub mod Shape
use tecora_be.Prelude.{
  ℕ, ◌≡◌, refl, sym, ap, ◌↔◌, Bool, true, false, not, ◌&&◌, ◌||◌, List, [], ◌∷◌, ◌++◌, arith, leb,
  ◌==◌, is_empty, All,
}
use tecora_be.Text.{Text, codes, trim_space, to_lower, text_eq}
use tecora_be.Regex.{
  Regex, class, cat, star, plus, Matches, a_class, a_cat, stop, again, match_string,
}
use tecora_be.Regex.Derivative.{match_string_iff}

unfoldable pub is_alnum : ℕ → Bool
is_alnum c = (leb b'a' c && leb c b'z') || (leb b'0' c && leb c b'9')

abbrev pub is_hyphen : ℕ → Bool
is_hyphen c = c == b'-'

-- ^[a-z0-9]+(?:-[a-z0-9]+)*$
unfoldable pub slug_pattern : Regex
slug_pattern = cat (plus (class is_alnum)) (star (cat (class is_hyphen) (plus (class is_alnum))))

unfoldable pub validate_slug : Text → Bool
unfolding match_string slug_pattern is_alnum
validate_slug slug = match_string slug_pattern slug

-- `fold` is the lower case of the letters beyond ASCII.
unfoldable pub normalize_slug : (ℕ → ℕ) → Text → Text
unfolding trim_space to_lower
normalize_slug fold raw = to_lower fold (trim_space raw)

unfoldable pub validate_name : Text → Bool
unfolding trim_space
validate_name name = not (is_empty (trim_space name))

-- A word is not empty and holds lower-case letters and digits only.
abbrev pub IsWord : Text → Type 0
IsWord w = (is_empty w ≡ false) × All (λ c. is_alnum c ≡ true) w

-- A slug is one word, or a word and a hyphen before a slug.
pub data IsSlug : Text → Type 0 where
  one : {s : Text} → IsWord s → IsSlug s
  join : {s : Text} (w t : Text) → s ≡ w ++ (b'-' ∷ t) → IsWord w → IsSlug t → IsSlug s
