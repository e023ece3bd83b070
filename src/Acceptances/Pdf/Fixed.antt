-- ===== src/Acceptances/Pdf/Fixed.antt =====
-- The coordinates of internal/acceptances/pdf.go as hundredths. All of them but those of the
-- signature's image are halves, on which the arithmetic of `float64` is exact; the colours are
-- literals of two decimals, which `%.2f` prints as they are written.
use tecora_be.Prelude.{ℕ, suc, ◌*◌, ◌/◌, ◌%◌, ◌∷◌, ◌++◌}
use tecora_be.Text.{Text}
use tecora_be.Text.Decimal.{decimal, padded}
use tecora_be.Prelude.Int.{ℤ, pos, negsuc}

-- Whole points.
abbrev pub pt : ℕ → ℤ
pt n = pos (n * 100)

abbrev pub hundredths : ℕ → Text
hundredths n = decimal (n / 100) ++ b'.' ∷ padded 2 (n % 100)

-- `%.2f`
unfoldable pub fixed : ℤ → Text
unfolding decimal padded
fixed (pos n) = hundredths n
fixed (negsuc n) = b'-' ∷ hundredths (suc n)
