-- ===== src/Text/Trim.antt =====
-- Equality of texts, and the laws of trimming.
use tecora_be.Prelude.{
  ◌≡◌, refl, ◌↔◌, ◌⊎◌, true, false, All, [], ap, ◌∙◌, ◌∷◌, arith, Bool-cases, inl, inr,
}
use tecora_be.Text.{Text, text_eq, is_space, trim_left, trim_right, trim_space, text_le}

pub text_eq_refl : (s : Text) → text_eq s s ≡ true
unfolding text_eq
text_eq_refl [] = refl
text_eq_refl (a ∷ s) = ground (arith, text_eq_refl s)

pub text_eq_sound : (s t : Text) → text_eq s t ≡ true → s ≡ t
unfolding text_eq
text_eq_sound [] [] h = refl
text_eq_sound [] (b ∷ t) h = cc
text_eq_sound (a ∷ s) [] h = cc
text_eq_sound (a ∷ s) (b ∷ t) h = ground (arith, text_eq_sound s t)

pub text_eq_iff : (s t : Text) → (text_eq s t ≡ true) ↔ (s ≡ t)
text_eq_iff s t = (text_eq_sound s t, λ e. rw e (text_eq_refl t))

-- No space at the front.
abbrev pub IsTrimmedLeft : Text → Type 0
IsTrimmedLeft [] = Unit
IsTrimmedLeft (c ∷ _) = is_space c ≡ false

trim_left-IsTrimmedLeft : (s : Text) → IsTrimmedLeft (trim_left s)
unfolding trim_left
trim_left-IsTrimmedLeft [] = tt
trim_left-IsTrimmedLeft (c ∷ s) = elim (Bool-cases (is_space c)) [
  | inl e ↦ rw e (trim_left-IsTrimmedLeft s)
  | inr e ↦ rw e e
]

trim_right-IsTrimmedLeft : (s : Text) → IsTrimmedLeft s → IsTrimmedLeft (trim_right s)
unfolding trim_right
trim_right-IsTrimmedLeft [] h = tt
trim_right-IsTrimmedLeft (c ∷ s) h = ground arith

trim_left_of_IsTrimmedLeft : (s : Text) → IsTrimmedLeft s → trim_left s ≡ s
unfolding trim_left
trim_left_of_IsTrimmedLeft [] h = refl
trim_left_of_IsTrimmedLeft (c ∷ s) h = ground arith

trim_right_idempotent : (s : Text) → trim_right (trim_right s) ≡ trim_right s
unfolding trim_right
trim_right_idempotent [] = refl
trim_right_idempotent (c ∷ s) = ground (arith, trim_right_idempotent s)

pub trim_space_idempotent : (s : Text) → trim_space (trim_space s) ≡ trim_space s
unfolding trim_space
trim_space_idempotent s =
    rw
      (trim_left_of_IsTrimmedLeft (trim_right (trim_left s))
        (trim_right-IsTrimmedLeft (trim_left s) (trim_left-IsTrimmedLeft s)))
      (trim_right_idempotent (trim_left s))

-- A text without space is trimmed.
pub trim_left_of_dense : (s : Text) → All (λ c. is_space c ≡ false) s → trim_left s ≡ s
unfolding trim_left
trim_left_of_dense [] h = refl
trim_left_of_dense (c ∷ s) h = ground arith

pub trim_right_of_dense : (s : Text) → All (λ c. is_space c ≡ false) s → trim_right s ≡ s
unfolding trim_right
trim_right_of_dense [] h = refl
trim_right_of_dense (c ∷ s) h = let rest = trim_right_of_dense s h.1 in ground arith

pub trim_space_of_dense : (s : Text) → All (λ c. is_space c ≡ false) s → trim_space s ≡ s
unfolding trim_space
trim_space_of_dense s h = ap trim_right (trim_left_of_dense s h) ∙ trim_right_of_dense s h

pub text_le_total : (s t : Text) → (text_le s t ≡ true) ⊎ (text_le t s ≡ true)
unfolding text_le
text_le_total [] t = inl refl
text_le_total (a ∷ s) [] = inr refl
text_le_total (a ∷ s) (b ∷ t) = let rest = text_le_total s t in ground arith
