-- ===== src/Text.antt =====
-- Go strings as the sources of internal/ use them: lists of Unicode code points. A text that
-- comes out of a JSON body or a database column is valid UTF-8, so it is such a list.
pub mod Trim
pub mod Split
pub mod Utf8
pub mod Decimal
use Prim.Native.Char.{code}
use tecora_be.Prelude.{
  ℕ, ◌-◌, ◌+◌, Bool, true, false, not, ◌&&◌, ◌||◌, List, [], ◌∷◌, ◌++◌, map, String, ltb, leb, ◌==◌,
  if◌then◌else◌, is_empty, Option, none, some,
}

abbrev pub Text : Type 0
Text = List ℕ

-- The code points of a literal. `String` has its own `[]` and `∷`.
abbrev pub codes : String → Text
codes String.[] = []
codes (String.◌∷◌ c s) = code c ∷ codes s

unfoldable pub text_eq : Text → Text → Bool
text_eq [] [] = true
text_eq [] (_ ∷ _) = false
text_eq (_ ∷ _) [] = false
text_eq (a ∷ s) (b ∷ t) = a == b && text_eq s t

-- `unicode.IsSpace`: the code points that `strings.TrimSpace` and `strings.Fields` treat as space.
unfoldable pub is_space : ℕ → Bool
is_space c =
    (leb 9 c && leb c 13)
    || c == 32
    || c == 0x85
    || c == 0xa0
    || c == 0x1680
    || (leb 0x2000 c && leb c 0x200a)
    || c == 0x2028
    || c == 0x2029
    || c == 0x202f
    || c == 0x205f
    || c == 0x3000

unfoldable pub trim_left : Text → Text
trim_left [] = []
trim_left (c ∷ s) = if is_space c then trim_left s else c ∷ s

unfoldable pub trim_right : Text → Text
trim_right [] = []
trim_right (c ∷ s) = let r = trim_right s in if is_empty r && is_space c then [] else c ∷ r

-- `strings.TrimSpace`
unfoldable pub trim_space : Text → Text
unfolding trim_left trim_right is_space
trim_space s = trim_right (trim_left s)

-- `strings.Fields`: the words between runs of space. The first argument is the word being read.
unfoldable pub fields_from : Text → Text → List Text
fields_from word [] = if is_empty word then [] else word ∷ []
fields_from word (c ∷ s) =
    let broken = fields_from [] s in
    let longer = fields_from (word ++ c ∷ []) s in
    if is_space c then (if is_empty word then broken else word ∷ broken) else longer

unfoldable pub fields : Text → List Text
unfolding fields_from is_space
fields s = fields_from [] s

-- `strings.ToLower`. The table of the letters beyond ASCII is the parameter `fold`.
unfoldable pub lower_rune : (ℕ → ℕ) → ℕ → ℕ
lower_rune fold c = if ltb c 128 then (if leb b'A' c && leb c b'Z' then c + 32 else c) else fold c

unfoldable pub to_lower : (ℕ → ℕ) → Text → Text
unfolding lower_rune
to_lower fold s = map (lower_rune fold) s

-- The order of texts by code points, which is that of UUIDs written in lower case.
unfoldable pub text_le : Text → Text → Bool
text_le [] t = true
text_le (a ∷ s) [] = false
text_le (a ∷ s) (b ∷ t) = ltb a b || (a == b && text_le s t)

-- `strings.HasPrefix` and `strings.TrimPrefix` in one: what follows the prefix, if it is there.
unfoldable pub after_prefix : Text → Text → Option Text
after_prefix [] s = some s
after_prefix (p ∷ prefix) [] = none
after_prefix (p ∷ prefix) (c ∷ s) =
    let rest = after_prefix prefix s in if p == c then rest else none

abbrev pub has_prefix : Text → Text → Bool
has_prefix prefix s = elim (after_prefix prefix s) [ none ↦ false | some _ ↦ true ]
