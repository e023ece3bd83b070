-- ===== src/Acceptances/Pdf/Literals.antt =====
-- The strings that internal/acceptances/pdf.go writes, as a reader of PDF takes them (ISO 32000, 7.3.4.2).
use mathlib.Core.List.{append_assoc}
use tecora_be.Prelude.{
  ℕ, zero, suc, ◌+◌, ◌-◌, ◌*◌, ◌%◌, ◌≡◌, refl, ap, ◌∙◌, Bool, ◌&&◌, ◌||◌, [], ◌∷◌, ◌++◌, map,
  Option, none, some, arith, ltb, leb, ◌==◌, if◌then◌else◌,
}
use tecora_be.Text.{Text, trim_space}
use tecora_be.Acceptances.Pdf.Words.{escape_rune, escape_runes, escape_pdf_text}

-- In a string; behind a backslash; behind the first of at most so many more octal digits.
pub data Mode : Type 0 where
  inside escaped : Mode
  octal : ℕ → ℕ → Mode

abbrev emit : ℕ → Option (Text × Text) → Option (Text × Text)
emit c none = none
emit c (some (s, rest)) = some (c ∷ s, rest)

-- A byte of the string itself, where so many parentheses are open.
abbrev read_inside : ℕ → ℕ → Text → (Mode → ℕ → Option (Text × Text)) → Option (Text × Text)
read_inside depth c s next =
    if c == b'\\'
    then next escaped depth
    else if c == b'('
    then emit c (next inside (depth + 1))
    else if c == b')'
    then (if depth == 0 then some ([], s) else emit c (next inside (depth - 1)))
    else emit c (next inside depth)

abbrev is_octal : ℕ → Bool
is_octal c = leb b'0' c && leb c b'7'

abbrev control : ℕ → ℕ
control c =
    if c == b'n'
    then 10
    else if c == b'r'
    then 13
    else if c == b't'
    then 9
    else if c == b'b'
    then 8
    else if c == b'f'
    then 12
    else c

-- Behind an octal digit: a third one ends the number.
abbrev read_more : ℕ → ℕ → ℕ → (Mode → ℕ → Option (Text × Text)) → Option (Text × Text)
read_more zero v depth next = emit (v % 256) (next inside depth)
read_more (suc left) v depth next = next (octal (suc left) v) depth

abbrev read_byte : Mode → ℕ → ℕ → Text → (Mode → ℕ → Option (Text × Text)) → Option (Text × Text)
read_byte inside depth c s next = read_inside depth c s next
read_byte escaped depth c s next =
    if is_octal c
    then next (octal 2 (c - 48)) depth
    else if c == 10
    then next inside depth
    else emit (control c) (next inside depth)
read_byte (octal zero v) depth c s next = emit (v % 256) (read_inside depth c s next)
read_byte (octal (suc left) v) depth c s next =
    if is_octal c
    then read_more left (v * 8 + (c - 48)) depth next
    else emit (v % 256) (read_inside depth c s next)

-- The string up to its closing parenthesis, and what follows it.
pub read_string : Mode → ℕ → Text → Option (Text × Text)
read_string mode depth [] = none
read_string mode depth (c ∷ s) = read_byte mode depth c s (λ m d. read_string m d s)

-- The byte that is written for a code point.
pub shown : ℕ → ℕ
shown r =
    if r == b'\n' || r == b'\r' || r == b'\t'
    then b' '
    else if r == 0x2022
    then 0x95
    else if ltb r 32 || ltb 126 r
    then b'-'
    else r

read_rune :
    (r : ℕ) (tail : Text) (depth : ℕ)
    → read_string inside depth (escape_rune r ++ tail)
      ≡ emit (shown r) (read_string inside depth tail)
unfolding read_string escape_rune shown
read_rune r tail depth = ground arith

read_runes :
    (s rest : Text)
    → read_string inside 0 (escape_runes s ++ b')' ∷ rest) ≡ some (map shown s, rest)
unfolding escape_runes
read_runes [] rest = unfold read_string in refl
read_runes (r ∷ s) rest =
    ap (λ t. read_string inside 0 t) (append_assoc (escape_rune r) (escape_runes s) (b')' ∷ rest))
    ∙ (read_rune r (escape_runes s ++ b')' ∷ rest) 0 ∙ ap (emit (shown r)) (read_runes s rest))

-- What `escapePDFText` writes is a string that a reader of PDF closes at the parenthesis behind it, not
-- before and not after, whatever the text; the bytes of the string are the characters of the trimmed
-- text, a blank for a tab or a new line, the byte 0x95 for a bullet, and a dash for any other character
-- that is not printable ASCII.
pub read_string-escape_pdf_text :
    (input rest : Text)
    → read_string inside 0 (escape_pdf_text input ++ b')' ∷ rest)
      ≡ some (map shown (trim_space input), rest)
unfolding escape_pdf_text
read_string-escape_pdf_text input rest = read_runes (trim_space input) rest
