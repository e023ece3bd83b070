-- ===== src/Acceptances/Pdf/Words.antt =====
-- The texts of internal/acceptances/pdf.go: what is printed for a field, the lines that a text is
-- broken into, and how a text is written between the parentheses of a PDF string.
use tecora_be.Prelude.{ℕ, ◌+◌, ◌||◌, List, [], ◌∷◌, ◌++◌, is_empty, ltb, leb, ◌==◌, if◌then◌else◌}
use tecora_be.Text.{Text, codes, trim_space, fields}
use tecora_be.Text.Utf8.{byte_length}

-- One round of the loop of `escapePDFText`.
unfoldable pub escape_rune : ℕ → Text
escape_rune r =
    if r == b'\\' || r == b'(' || r == b')'
    then b'\\' ∷ r ∷ []
    else if r == b'\n' || r == b'\r' || r == b'\t'
    then b' ' ∷ []
    else if r == 0x2022
    then codes "\\225"
    else if ltb r 32 || ltb 126 r
    then b'-' ∷ []
    else r ∷ []

unfoldable pub escape_runes : Text → Text
unfolding escape_rune
escape_runes [] = []
escape_runes (r ∷ s) = escape_rune r ++ escape_runes s

unfoldable pub escape_pdf_text : Text → Text
unfolding escape_runes trim_space
escape_pdf_text input = escape_runes (trim_space input)

-- The loop of `wrapText` over the words after the first: `current` is the line being filled.
unfoldable pub wrap_from : ℕ → Text → List Text → List Text
unfolding byte_length
wrap_from max_len current [] = current ∷ []
wrap_from max_len current (field ∷ rest) =
    let longer = wrap_from max_len (current ++ b' ' ∷ field) rest in
    let next = wrap_from max_len field rest in
    if leb (byte_length current + 1 + byte_length field) max_len then longer else current ∷ next

abbrev pub wrap_fields : ℕ → List Text → List Text
wrap_fields max_len [] = []
wrap_fields max_len (field ∷ rest) = wrap_from max_len field rest

unfoldable pub wrap_text : Text → ℕ → List Text
unfolding wrap_from fields trim_space
wrap_text input max_len = wrap_fields max_len (fields (trim_space input))

unfoldable pub default_value : Text → Text
unfolding trim_space
default_value input =
    let trimmed = trim_space input in if is_empty trimmed then codes "No proporcionado" else trimmed

unfoldable pub default_notes : Text → Text
unfolding trim_space
default_notes input =
    let trimmed = trim_space input in
    if is_empty trimmed then codes "No se proporcionaron notas adicionales." else trimmed

unfoldable pub sanitized_products : List Text → List Text
unfolding trim_space
sanitized_products [] = []
sanitized_products (product ∷ products) =
    let trimmed = trim_space product in
    let rest = sanitized_products products in if is_empty trimmed then rest else trimmed ∷ rest

unfoldable pub highlight_value : Text → Text
unfolding trim_space
highlight_value input =
    let trimmed = trim_space input in
    if is_empty trimmed then codes "No proporcionado" else codes "Vence: " ++ trimmed
