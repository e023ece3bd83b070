-- ===== src/Organizations/Slug/Shape.antt =====
-- The texts that the slug pattern admits, and the form in which slugs are stored.
use tecora_be.Prelude.{
  ℕ, ◌≡◌, refl, sym, ap, ◌∙◌, ◌↔◌, ◌⊎◌, inl, inr, Bool, true, false, [], ◌∷◌, ◌++◌, arith, is_empty,
  All, All-append,
}
use mathlib.Core.Path.{subst}
use mathlib.Core.List.{append-nil}
use tecora_be.Text.{Text, is_space, trim_left, trim_right, trim_space, lower_rune, to_lower}
use tecora_be.Regex.{class, cat, star, plus, Matches, a_class, a_cat, stop, again}
use tecora_be.Regex.Derivative.{match_string_iff}
use tecora_be.Organizations.Slug.{
  is_alnum, is_hyphen, slug_pattern, validate_slug, normalize_slug, IsWord, IsSlug, one, join,
}

module _ (p : ℕ → Bool) where
  abbrev Holds : Text → Type 0
  Holds = All (λ c. p c ≡ true)

  class_inv : {s : Text} → Matches (class p) s → (c : ℕ) × (s ≡ c ∷ []) × (p c ≡ true)
  class_inv (a_class c e h) = (c, e, h)

  star_sound : {s : Text} → Matches (star (class p)) s → Holds s
  star_sound (stop e) = rw e tt
  star_sound (again c x y e m n) =
      let (d, e', h) = class_inv m in
      let front : Holds (c ∷ x) = subst Holds (sym e') (h, tt) in
      rw e (front.0, All-append (λ c. p c ≡ true) x y front.1 (star_sound n))

  star_complete : (s : Text) → Holds s → Matches (star (class p)) s
  star_complete [] h = stop refl
  star_complete (c ∷ s) h = again c [] s refl (a_class c refl h.0) (star_complete s h.1)

  plus_sound : {s : Text} → Matches (plus (class p)) s → (is_empty s ≡ false) × Holds s
  plus_sound (a_cat x y e m n) =
      let (c, e', h) = class_inv m in rw (e, e') (refl, (h, star_sound n))

  plus_complete : (s : Text) → is_empty s ≡ false → Holds s → Matches (plus (class p)) s
  plus_complete [] e h = cc
  plus_complete (c ∷ s) e h = a_cat (c ∷ []) s refl (a_class c refl h.0) (star_complete s h.1)

abbrev Tail : Text → Type 0
Tail s = (s ≡ []) ⊎ ((t : Text) × (s ≡ b'-' ∷ t) × IsSlug t)

Tail-cons : (w y : Text) → IsWord w → Tail y → IsSlug (w ++ y)
Tail-cons w y word (inl e) = rw (e, append-nil w) (one word)
Tail-cons w y word (inr (t, e, slug)) = join w t (ap (λ z. w ++ z) e) word slug

cat_inv :
    {s : Text}
    → Matches (cat (class is_hyphen) (plus (class is_alnum))) s
    → (w : Text) × (s ≡ b'-' ∷ w) × IsWord w
cat_inv (a_cat u w e m n) =
    let (d, e', h) = class_inv is_hyphen m in
    let is_it : d ≡ b'-' = ground arith in
    (w, e ∙ ap (λ z. z ++ w) e' ∙ ap (λ k. k ∷ w) is_it, plus_sound is_alnum n)

Tail-sound : {s : Text} → Matches (star (cat (class is_hyphen) (plus (class is_alnum)))) s → Tail s
Tail-sound (stop e) = inl e
Tail-sound (again c x y e m n) =
    let (w, e', word) = cat_inv m in
    inr (w ++ y, e ∙ ap (λ z. z ++ y) e', Tail-cons w y word (Tail-sound n))

IsSlug-sound : {s : Text} → Matches slug_pattern s → IsSlug s
unfolding slug_pattern
IsSlug-sound (a_cat x y e m n) = rw e (Tail-cons x y (plus_sound is_alnum m) (Tail-sound n))

-- The rest of a slug behind a hyphen, as the repeated group reads it.
tail_complete :
    (w y : Text)
    → IsWord w
    → Matches (star (cat (class is_hyphen) (plus (class is_alnum)))) y
    → Matches (star (cat (class is_hyphen) (plus (class is_alnum)))) (b'-' ∷ (w ++ y))
tail_complete w y word m =
    again b'-' w y refl
      (a_cat (b'-' ∷ []) w refl (a_class b'-' refl refl) (plus_complete is_alnum w word.0 word.1)) m

abbrev Parts : Text → Type 0
Parts s =
    (w : Text) × (y : Text) × (s ≡ w ++ y)
    × IsWord w
    × Matches (star (cat (class is_hyphen) (plus (class is_alnum)))) y

slug-Parts : {s : Text} → IsSlug s → Parts s
slug-Parts {s} (one word) = (s, [], sym (append-nil s), word, stop refl)
slug-Parts (join w t e word slug) =
    let (v, y, e', word', m) = slug-Parts slug in
    (w, b'-' ∷ t, e, word, rw e' (tail_complete v y word' m))

slug_complete : {s : Text} → IsSlug s → Matches slug_pattern s
unfolding slug_pattern
slug_complete slug =
    let (w, y, e, word, m) = slug-Parts slug in
    a_cat w y e (plus_complete is_alnum w word.0 word.1) m

-- `ValidateSlug` accepts exactly the texts that are words of lower-case letters and digits,
-- none empty, joined by single hyphens.
pub validate_slug_iff : (s : Text) → (validate_slug s ≡ true) ↔ IsSlug s
unfolding validate_slug
validate_slug_iff s =
    let (to, from) = match_string_iff slug_pattern s in
    (λ h. IsSlug-sound (to h), λ slug. from (slug_complete slug))

abbrev IsSlugRune : ℕ → Type 0
IsSlugRune c = (is_alnum c ≡ true) ⊎ (c ≡ b'-')

word_runes : (w : Text) → All (λ c. is_alnum c ≡ true) w → All IsSlugRune w
word_runes [] h = tt
word_runes (c ∷ w) h = (inl h.0, word_runes w h.1)

slug_runes : {s : Text} → IsSlug s → All IsSlugRune s
slug_runes {s} (one word) = word_runes s word.1
slug_runes (join w t e word slug) =
    rw e (All-append IsSlugRune w (b'-' ∷ t) (word_runes w word.1) (inr refl, slug_runes slug))

rune_plain : (fold : ℕ → ℕ) (c : ℕ) → IsSlugRune c → (is_space c ≡ false) × (lower_rune fold c ≡ c)
unfolding is_space lower_rune is_alnum
rune_plain fold c h = ground arith

to_lower_plain : (fold : ℕ → ℕ) (s : Text) → All IsSlugRune s → to_lower fold s ≡ s
unfolding to_lower
to_lower_plain fold [] h = refl
to_lower_plain fold (c ∷ s) h = cc ((rune_plain fold c h.0).1, to_lower_plain fold s h.1)

trim_right_plain : (s : Text) → All IsSlugRune s → trim_right s ≡ s
unfolding trim_right
trim_right_plain [] h = refl
trim_right_plain (c ∷ s) h =
    let dull = (rune_plain (λ k. k) c h.0).0 in ground (arith, trim_right_plain s h.1)

trim_left_plain : (s : Text) → All IsSlugRune s → trim_left s ≡ s
unfolding trim_left
trim_left_plain [] h = refl
trim_left_plain (c ∷ s) h = let dull = (rune_plain (λ k. k) c h.0).0 in ground arith

-- A valid slug is its own normal form, whatever the lower case of letters beyond ASCII is.
pub normalize_slug_of_valid :
    (fold : ℕ → ℕ) (s : Text) → validate_slug s ≡ true → normalize_slug fold s ≡ s
unfolding normalize_slug trim_space
normalize_slug_of_valid fold s h =
    let runes = slug_runes ((validate_slug_iff s).0 h) in
    rw (trim_left_plain s runes, trim_right_plain s runes) (to_lower_plain fold s runes)
