-- ===== src/Config/DotEnv.antt =====
-- internal/config/dotenv.go, for a file that can be read.
use tecora_be.Prelude.{
  ℕ, ◌&&◌, ◌||◌, List, [], ◌∷◌, Option, none, some, is_empty, ◌==◌, if◌then◌else◌,
}
use tecora_be.Text.{after_prefix, has_prefix, Text, codes, text_eq, trim_space}
use tecora_be.Config.{Env}

-- `strings.Cut` at the first "="
unfoldable pub cut : Text → Option (Text × Text)
cut [] = none
cut (c ∷ s) =
    let rest = cut s in
    if c == b'='
    then some ([], s)
    else elim rest [ none ↦ none | some (key, value) ↦ some (c ∷ key, value) ]

-- The text without its last character, and that character.
unfoldable pub split_last : ℕ → Text → Text × ℕ
split_last c [] = ([], c)
split_last c (d ∷ s) = let (init, last) = split_last d s in (c ∷ init, last)

-- A text of one character is as long as its code point in UTF-8, and no quote is longer than one byte.
unfoldable pub unquote : Text → Text
unfolding split_last
unquote [] = []
unquote (c ∷ []) = c ∷ []
unquote (c ∷ d ∷ s) =
    let (init, last) = split_last d s in
    if (c == b'"' && last == b'"') || (c == 39 && last == 39) then init else c ∷ d ∷ s

-- The loop's body from `strings.Cut` on
unfoldable pub read_assignment : Text → Option (Text × Text)
unfolding trim_space cut unquote
read_assignment body = elim (cut body) [
  | none ↦ none
  | some (key, value) ↦
      if is_empty (trim_space key) then none else some (trim_space key, unquote (trim_space value))
]

-- … from the trimmed line on
unfoldable pub read_trimmed : Text → Option (Text × Text)
unfolding trim_space after_prefix read_assignment
read_trimmed line =
    if is_empty line || has_prefix (codes "#") line
    then none
    else elim (after_prefix (codes "export ") line) [
      | none ↦ read_assignment line
      | some rest ↦ read_assignment (trim_space rest)
    ]

-- One line of the file: the variable that it sets, if it sets one.
unfoldable pub read_line : Text → Option (Text × Text)
unfolding trim_space read_trimmed
read_line raw = read_trimmed (trim_space raw)

-- `os.Setenv`
unfoldable pub set_env : Text → Text → Env → Env
unfolding text_eq
set_env key value env k = if text_eq key k then value else env k

abbrev pub apply_line : Option (Text × Text) → Env → Env
apply_line none env = env
apply_line (some (key, value)) env = set_env key value env

-- The loop of `LoadDotEnv` over the lines of a file that can be read.
unfoldable pub load_dot_env : List Text → Env → Env
unfolding read_line set_env
load_dot_env [] env = env
load_dot_env (line ∷ lines) env = load_dot_env lines (apply_line (read_line line) env)
