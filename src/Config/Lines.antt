-- ===== src/Config/Lines.antt =====
-- The lines that internal/config/dotenv.go reads.
use mathlib.Core.List.{append_assoc}
use tecora_be.Prelude.{
  ℕ, ◌≡◌, refl, sym, ap, ◌∙◌, true, false, List, [], ◌∷◌, ◌++◌, none, some, arith, All, any,
  is_empty, ◌==◌, Bool-cases, inl, inr,
}
use tecora_be.Text.{
  after_prefix, has_prefix, Text, codes, is_space, trim_left, trim_right, trim_space,
}
use tecora_be.Text.Trim.{trim_space_of_dense, text_eq_refl}
use tecora_be.Config.DotEnv.{
  cut, split_last, unquote, read_line, read_trimmed, read_assignment, set_env, apply_line,
  load_dot_env,
}
use tecora_be.Config.{Env}

append_nonempty : (s : Text) (d : ℕ) → is_empty (s ++ d ∷ []) ≡ false
append_nonempty [] d = refl
append_nonempty (c ∷ s) d = refl

-- A text with no space at either end is trimmed.
trim_right_solid : (s : Text) (d : ℕ) → is_space d ≡ false → trim_right (s ++ d ∷ []) ≡ s ++ d ∷ []
unfolding trim_right
trim_right_solid [] d h = rw h refl
trim_right_solid (c ∷ s) d h = ground (arith, trim_right_solid s d h, append_nonempty s d)

trim_space_solid :
    (c d : ℕ) (s : Text)
    → is_space c ≡ false
    → is_space d ≡ false
    → trim_space (c ∷ (s ++ d ∷ [])) ≡ c ∷ (s ++ d ∷ [])
unfolding trim_space trim_left
trim_space_solid c d s hc hd = rw hc (trim_right_solid (c ∷ s) d hd)

-- The characters of a name: no space, and no equals sign.
abbrev pub IsName : Text → Type 0
IsName key = All (λ c. (is_space c ≡ false) × (c == b'=' ≡ false)) key

name_dense : (key : Text) → IsName key → All (λ c. is_space c ≡ false) key
name_dense [] h = tt
name_dense (c ∷ key) h = (h.0.0, name_dense key h.1)

cut-name : (key value : Text) → IsName key → cut (key ++ b'=' ∷ value) ≡ some (key, value)
unfolding cut
cut-name [] value h = refl
cut-name (c ∷ key) value h = rw (h.0.1, cut-name key value h.1) refl

-- A name and an equals sign do not begin with a prefix that has a space and no equals sign.
no_prefix :
    (prefix key value : Text)
    → IsName key
    → any is_space prefix ≡ true
    → any (λ c. c == b'=') prefix ≡ false
    → after_prefix prefix (key ++ b'=' ∷ value) ≡ none
unfolding after_prefix
no_prefix [] key value h space equals = cc
no_prefix (p ∷ prefix) [] value h space equals = ground arith
no_prefix (p ∷ prefix) (c ∷ key) value h space equals = elim (Bool-cases (p == c)) [
  | inr other ↦ ground arith
  | inl here ↦
      let same : p ≡ c = ground arith in
      let solid : is_space p ≡ false = ap is_space same ∙ h.0.0 in
      ground (arith, no_prefix prefix key value h.1)
]

split_last-append : (c d : ℕ) (s : Text) → split_last c (s ++ d ∷ []) ≡ (c ∷ s, d)
unfolding split_last
split_last-append c d [] = refl
split_last-append c d (e ∷ s) = rw (split_last-append e d s) refl

abbrev quoted : Text → Text
quoted value = b'"' ∷ (value ++ b'"' ∷ [])

unquote-quoted : (value : Text) → unquote (quoted value) ≡ value
unfolding unquote split_last
unquote-quoted [] = refl
unquote-quoted (c ∷ value) = rw (split_last-append c b'"' value) refl

read_assignment-quoted :
    (key value : Text)
    → IsName key
    → is_empty key ≡ false
    → read_assignment (key ++ b'=' ∷ quoted value) ≡ some (key, value)
unfolding read_assignment
read_assignment-quoted key value h full =
    let name = trim_space_of_dense key (name_dense key h) in
    let text =
      trim_space_solid b'"' b'"' value (unfold is_space in refl) (unfold is_space in refl) in
    rw (cut-name key (quoted value) h, name, text, unquote-quoted value, full, read_assignment) refl

read_trimmed-name :
    (c : ℕ) (key value : Text)
    → IsName (c ∷ key)
    → c == b'#' ≡ false
    → read_trimmed (c ∷ (key ++ b'=' ∷ value)) ≡ read_assignment (c ∷ (key ++ b'=' ∷ value))
unfolding read_trimmed
read_trimmed-name c key value h plain =
    let other = no_prefix (codes "export ") (c ∷ key) value h (unfold is_space in refl) refl in
    let mark : has_prefix (codes "#") (c ∷ (key ++ b'=' ∷ value)) ≡ false =
      unfold after_prefix in (ground arith) in
    rw (mark, other) refl

-- A line with a name that does not begin with "#", an equals sign and any text between double quotes
-- sets that name to that text.
pub read_line-quoted :
    (c : ℕ) (key value : Text)
    → IsName (c ∷ key)
    → c == b'#' ≡ false
    → read_line (c ∷ (key ++ b'=' ∷ quoted value)) ≡ some (c ∷ key, value)
unfolding read_line
read_line-quoted c key value h plain =
    let shape = append_assoc key (b'=' ∷ b'"' ∷ value) (b'"' ∷ []) in
    let solid =
      trim_space_solid c b'"' (key ++ b'=' ∷ b'"' ∷ value) h.0.0 (unfold is_space in refl) in
    let whole = ap (λ s. trim_space (c ∷ s)) (sym shape) ∙ solid ∙ ap (λ s. c ∷ s) shape in
    ap read_trimmed whole
    ∙ read_trimmed-name c key (quoted value) h plain
    ∙ read_assignment-quoted (c ∷ key) value h refl

-- After a file the environment has what the last line for a name sets it to.
pub load_dot_env-last :
    (lines : List Text) (line key value : Text) (env : Env)
    → read_line line ≡ some (key, value)
    → load_dot_env (lines ++ line ∷ []) env key ≡ value
unfolding load_dot_env set_env
load_dot_env-last [] line key value env h = rw (h, text_eq_refl key) refl
load_dot_env-last (l ∷ lines) line key value env h =
    load_dot_env-last lines line key value (apply_line (read_line l) env) h
