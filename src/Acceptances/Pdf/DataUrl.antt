-- ===== src/Acceptances/Pdf/DataUrl.antt =====
-- Where the image stands in the text of a signature of internal/acceptances/pdf.go.
use tecora_be.Prelude.{
  ◌≡◌, refl, sym, ap, ◌∙◌, ◌⊎◌, inl, inr, [], ◌∷◌, ◌++◌, All, some, arith, ◌==◌, Bool-cases,
  Option-cases,
}
use tecora_be.Text.{Text, codes, after_prefix}
use tecora_be.Acceptances.Pdf.Signature.{after_comma, payload}

abbrev pub IsDataUrl : Text → Type 0
IsDataUrl s = (rest : Text) × (s ≡ codes "data:" ++ rest)

-- The text carries itself; a data URL carries what stands behind its first comma.
abbrev pub Carries : Text → Text → Type 0
Carries s text =
    (¬ (IsDataUrl s) × (text ≡ s))
    ⊎ ((media : Text) × All (λ c. ¬ (c ≡ b',')) media × (s ≡ codes "data:" ++ media ++ b',' ∷ text))

after_prefix_inv : (prefix s rest : Text) → after_prefix prefix s ≡ some rest → s ≡ prefix ++ rest
unfolding after_prefix
after_prefix_inv [] s rest h = ground arith
after_prefix_inv (p ∷ prefix) [] rest h = cc
after_prefix_inv (p ∷ prefix) (c ∷ s) rest h = elim (Bool-cases (p == c)) [
  | inl e ↦
      let same : p ≡ c = ground arith in
      let tail = after_prefix_inv prefix s rest (ground arith) in ground arith
  | inr e ↦ ground arith
]

after_prefix-app : (prefix rest : Text) → after_prefix prefix (prefix ++ rest) ≡ some rest
unfolding after_prefix
after_prefix-app [] rest = refl
after_prefix-app (p ∷ prefix) rest = ground (arith, after_prefix-app prefix rest)

after_comma_inv :
    (s text : Text)
    → after_comma s ≡ some text
    → (media : Text) × All (λ c. ¬ (c ≡ b',')) media × (s ≡ media ++ b',' ∷ text)
unfolding after_comma
after_comma_inv [] text h = cc
after_comma_inv (c ∷ s) text h = elim (Bool-cases (c == b',')) [
  | inl e ↦
      let here : c ≡ b',' = ground arith in
      let tail : s ≡ text = ground arith in ([], tt, ground arith)
  | inr e ↦
      let other : ¬ (c ≡ b',') = λ same. ground arith in
      let (media, plain, parts) = after_comma_inv s text (ground arith) in
      (c ∷ media, (other, plain), ap (λ t. c ∷ t) parts)
]

after_comma-app :
    (media text : Text)
    → All (λ c. ¬ (c ≡ b',')) media
    → after_comma (media ++ b',' ∷ text) ≡ some text
unfolding after_comma
after_comma-app [] text h = refl
after_comma-app (c ∷ media) text (other, plain) = elim (Bool-cases (c == b',')) [
  | inl e ↦ let same : c ≡ b',' = ground arith in elim (other same) [ ]
  | inr e ↦ rw e (after_comma-app media text plain)
]

pub payload-Carries : (s text : Text) → payload s ≡ some text → Carries s text
unfolding payload
payload-Carries s text h = elim (Option-cases (after_prefix (codes "data:") s)) [
  | inl absent ↦
      let other : ¬ (IsDataUrl s) = λ (rest, e).
        let found : after_prefix (codes "data:") s ≡ some rest =
          ap (after_prefix (codes "data:")) e ∙ after_prefix-app (codes "data:") rest in
        ground arith in
      inl (other, ground arith)
  | inr (rest, found) ↦
      let whole = after_prefix_inv (codes "data:") s rest found in
      let cut : after_comma s ≡ some text = ground arith in
      let behind : after_comma rest ≡ some text =
        unfold after_comma in (sym (ap after_comma whole) ∙ cut) in
      let (media, plain, parts) = after_comma_inv rest text behind in
      inr (media, plain, whole ∙ ap (λ t. codes "data:" ++ t) parts)
]

pub payload_of_Carries : (s text : Text) → Carries s text → payload s ≡ some text
unfolding payload
payload_of_Carries s text (inl (other, same)) =
    elim (Option-cases (after_prefix (codes "data:") s)) [
      | inl absent ↦ rw absent (ap some (sym same))
      | inr (rest, found) ↦ elim (other (rest, after_prefix_inv (codes "data:") s rest found)) [ ]
    ]
payload_of_Carries s text (inr (media, plain, whole)) =
    let found : after_prefix (codes "data:") s ≡ some (media ++ b',' ∷ text) =
      ap (after_prefix (codes "data:")) whole
      ∙ after_prefix-app (codes "data:") (media ++ b',' ∷ text) in
    let cut : after_comma s ≡ some text =
      unfold after_comma in (ap after_comma whole ∙ after_comma-app media text plain) in
    rw found cut
