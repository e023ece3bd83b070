-- ===== src/Acceptances/Pdf/Wrapping.antt =====
-- The lines that `wrapText` of internal/acceptances/pdf.go breaks a text into.
use mathlib.Core.List.{Memᴰ, append_assoc}
use tecora_be.Prelude.{
  ℕ, ◌+◌, ◌≤◌, ◌≡◌, refl, sym, ap, ◌∙◌, ◌⊎◌, inl, inr, List, [], ◌∷◌, ◌++◌, arith, All, length,
  length-append, leb, Bool-cases,
}
use tecora_be.Text.{Text, fields, trim_space}
use tecora_be.Text.Split.{join}
use tecora_be.Text.Utf8.{encode_rune, utf8, byte_length}
use tecora_be.Acceptances.Pdf.Words.{wrap_from, wrap_fields, wrap_text}

utf8-append : (s t : Text) → utf8 (s ++ t) ≡ utf8 s ++ utf8 t
unfolding utf8
utf8-append [] t = refl
utf8-append (c ∷ s) t =
    ap (λ u. encode_rune c ++ u) (utf8-append s t)
    ∙ sym (append_assoc (encode_rune c) (utf8 s) (utf8 t))

byte_length-glue : (s t : Text) → byte_length (s ++ b' ' ∷ t) ≡ byte_length s + 1 + byte_length t
unfolding byte_length utf8
byte_length-glue s t =
    omega
      (arith, ap length (utf8-append s (b' ' ∷ t)), length-append {0} (utf8 s) (utf8 (b' ' ∷ t)))

join-glue :
    (s t : Text) (rest : List Text)
    → join b' ' ((s ++ b' ' ∷ t) ∷ rest) ≡ s ++ b' ' ∷ join b' ' (t ∷ rest)
unfolding join
join-glue s t [] = refl
join-glue s t (word ∷ rest) = append_assoc s (b' ' ∷ t) (b' ' ∷ join b' ' (word ∷ rest))

module _ (max_len : ℕ) where
  join-cons :
      (line current : Text) (rest : List Text)
      → join b' ' (line ∷ wrap_from max_len current rest)
        ≡ line ++ b' ' ∷ join b' ' (wrap_from max_len current rest)
  unfolding join wrap_from
  join-cons line current [] = refl
  join-cons line current (field ∷ rest) =
      elim (Bool-cases (leb (byte_length current + 1 + byte_length field) max_len)) [
        | inl fits ↦ rw fits (join-cons line (current ++ b' ' ∷ field) rest)
        | inr full ↦ rw full refl
      ]

  join-wrap_from :
      (current : Text) (rest : List Text)
      → join b' ' (wrap_from max_len current rest) ≡ join b' ' (current ∷ rest)
  unfolding wrap_from
  join-wrap_from current [] = refl
  join-wrap_from current (field ∷ rest) =
      elim (Bool-cases (leb (byte_length current + 1 + byte_length field) max_len)) [
        | inl fits ↦ rw fits (
            join-wrap_from (current ++ b' ' ∷ field) rest
            ∙ (join-glue current field rest ∙ (unfold join in refl)))
        | inr full ↦ rw full (
            join-cons current field rest
            ∙ (ap (λ s. current ++ b' ' ∷ s) (join-wrap_from field rest) ∙ (unfold join in refl)))
      ]

  -- A line that is short enough, or a word.
  abbrev IsLine {κ} : (Text → Type κ) → Text → Type κ
  IsLine Word line = (byte_length line ≤ max_len) ⊎ Word line

  wrap_from-IsLine {κ} :
      (Word : Text → Type κ) (current : Text) (rest : List Text)
      → IsLine Word current
      → All Word rest
      → All (IsLine Word) (wrap_from max_len current rest)
  unfolding wrap_from
  wrap_from-IsLine Word current [] h words = (h, tt)
  wrap_from-IsLine Word current (field ∷ rest) h words =
      elim (Bool-cases (leb (byte_length current + 1 + byte_length field) max_len)) [
        | inl fits ↦
            let short = byte_length-glue current field in
            rw fits
              (wrap_from-IsLine Word (current ++ b' ' ∷ field) rest (inl (ground arith)) words.1)
        | inr full ↦ rw full (h, wrap_from-IsLine Word field rest (inr words.0) words.1)
      ]

each_mem {ℓ} : {A : Type ℓ} (P : A → Type ℓ) (xs : List A) → ((x : A) → Memᴰ x xs → P x) → All P xs
each_mem P [] h = tt
each_mem P (x ∷ xs) h = (h x (Memᴰ.head refl), each_mem P xs (λ y m. h y (Memᴰ.tail m)))

-- The lines of `wrapText` are the words of the text in their order, with one blank between two words
-- where no line ends; and a line is at most as many bytes long as is asked, or a single word.
pub wrap_text-IsLine :
    (input : Text) (max_len : ℕ)
    → let words = fields (trim_space input) in
      (join b' ' (wrap_text input max_len) ≡ join b' ' words)
      × All (λ line. (byte_length line ≤ max_len) ⊎ Memᴰ line words) (wrap_text input max_len)
unfolding wrap_text
wrap_text-IsLine input max_len = go (fields (trim_space input))
  where
    go :
        (words : List Text)
        → (join b' ' (wrap_fields max_len words) ≡ join b' ' words)
          × All (λ line. (byte_length line ≤ max_len) ⊎ Memᴰ line words) (wrap_fields max_len words)
    go [] = (refl, tt)
    go (word ∷ rest) = (
      join-wrap_from max_len word rest,
      wrap_from-IsLine max_len (λ line. Memᴰ line (word ∷ rest)) word rest (inr (Memᴰ.head refl))
          (each_mem _ rest (λ x m. Memᴰ.tail m)),
    )
