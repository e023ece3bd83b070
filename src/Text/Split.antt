-- ===== src/Text/Split.antt =====
-- `strings.Split` with a separator of one character.
use tecora_be.Prelude.{
  ℕ, ◌≡◌, refl, sym, List, [], ◌∷◌, ◌++◌, arith, ◌==◌, if◌then◌else◌, Bool-cases, inl, inr,
}
use mathlib.Core.List.{append_assoc, append-nil}
use tecora_be.Text.{Text}

module _ (sep : ℕ) where
  -- The first argument is the part being read.
  unfoldable pub split_from : Text → Text → List Text
  split_from part [] = part ∷ []
  split_from part (c ∷ s) =
      let closed = split_from [] s in
      let longer = split_from (part ++ c ∷ []) s in if c == sep then part ∷ closed else longer

  unfoldable pub split : Text → List Text
  unfolding split_from
  split s = split_from [] s

  unfoldable pub join : List Text → Text
  join [] = []
  join (part ∷ []) = part
  join (part ∷ next ∷ parts) = part ++ sep ∷ join (next ∷ parts)

  join-cons :
      (part : Text) (s read : Text)
      → join (part ∷ split_from read s) ≡ part ++ sep ∷ join (split_from read s)
  unfolding join split_from
  join-cons part [] read = refl
  join-cons part (c ∷ s) read = elim (Bool-cases (c == sep)) [
    | inl here ↦ rw here refl
    | inr away ↦ rw away (join-cons part s (read ++ c ∷ []))
  ]

  join-split_from : (read s : Text) → join (split_from read s) ≡ read ++ s
  unfolding split_from join
  join-split_from read [] = sym (append-nil read)
  join-split_from read (c ∷ s) = elim (Bool-cases (c == sep)) [
    | inl here ↦
        let same : c ≡ sep = ground arith in
        rw (here, join-cons read s [], join-split_from [] s, same) refl
    | inr away ↦ rw (away, join-split_from (read ++ c ∷ []) s) (append_assoc read (c ∷ []) s)
  ]

  -- The parts, joined again, are the text.
  pub join-split : (s : Text) → join (split s) ≡ s
  unfolding split
  join-split s = join-split_from [] s
