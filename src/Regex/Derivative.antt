-- ===== src/Regex/Derivative.antt =====
-- The matcher decides the language of the pattern.
use tecora_be.Prelude.{
  ℕ, ◌≡◌, refl, sym, ap, ◌↔◌, ◌⊎◌, inl, inr, true, [], ◌∷◌, ◌++◌, arith, Bool-cases,
}
use tecora_be.Text.{Text}
use tecora_be.Regex.{
  Regex, nothing, empty, class, cat, alt, star, Matches, an_empty, a_class, a_cat, left, right,
  stop, again, nullable, derivative, match_string,
}

nullable_sound : (r : Regex) → nullable r ≡ true → Matches r []
unfolding nullable
nullable_sound nothing h = cc
nullable_sound empty h = an_empty refl
nullable_sound (class p) h = cc
nullable_sound (cat r q) h =
    a_cat [] [] refl (nullable_sound r (ground arith)) (nullable_sound q (ground arith))
nullable_sound (alt r q) h = elim (Bool-cases (nullable r)) [
  | inl e ↦ left (nullable_sound r e)
  | inr e ↦ right (nullable_sound q (ground arith))
]
nullable_sound (star r) h = stop refl

append_is_nil : (x y : Text) → [] ≡ x ++ y → (x ≡ []) × (y ≡ [])
append_is_nil [] y h = (refl, sym h)
append_is_nil (c ∷ x) y h = cc

nullable_complete : {r : Regex} {s : Text} → Matches r s → s ≡ [] → nullable r ≡ true
unfolding nullable
nullable_complete (an_empty e) h = refl
nullable_complete (a_class c e p) h = cc
nullable_complete (a_cat x y e m n) h =
    let (ex, ey) = append_is_nil x y (cc) in
    ground (arith, nullable_complete m ex, nullable_complete n ey)
nullable_complete (left m) h = ground (arith, nullable_complete m h)
nullable_complete (right m) h = ground (arith, nullable_complete m h)
nullable_complete (stop e) h = refl
nullable_complete (again c x y e m n) h = refl

not_nothing : {s : Text} → ¬ Matches nothing s
not_nothing m = elim m [ ]

empty_inv : {s : Text} → Matches empty s → s ≡ []
empty_inv (an_empty e) = e

alt_inv : {r q : Regex} {s : Text} → Matches (alt r q) s → Matches r s ⊎ Matches q s
alt_inv (left m) = inl m
alt_inv (right m) = inr m

abbrev Split : Regex → Regex → Text → Type 0
Split r q s = (x : Text) × (y : Text) × (s ≡ x ++ y) × Matches r x × Matches q y

cat_inv : {r q : Regex} {s : Text} → Matches (cat r q) s → Split r q s
cat_inv (a_cat x y e m n) = (x, y, e, m, n)

derivative_sound : (c : ℕ) (r : Regex) (s : Text) → Matches (derivative c r) s → Matches r (c ∷ s)
unfolding derivative
derivative_sound c nothing s m = absurd (not_nothing m)
derivative_sound c empty s m = absurd (not_nothing m)
derivative_sound c (class p) s m = elim (Bool-cases (p c)) [
  | inl e ↦ a_class c (ap (◌∷◌ c) (empty_inv (rw e at m))) e
  | inr e ↦ absurd (not_nothing (rw e at m))
]
derivative_sound c (cat r q) s m = elim (alt_inv m) [
  | inl n ↦
      let (x, y, e, mx, my) = cat_inv n in
      a_cat (c ∷ x) y (ap (◌∷◌ c) e) (derivative_sound c r x mx) my
  | inr n ↦ elim (Bool-cases (nullable r)) [
    | inl e ↦ a_cat [] (c ∷ s) refl (nullable_sound r e) (derivative_sound c q s (rw e at n))
    | inr e ↦ absurd (not_nothing (rw e at n))
  ]
]
derivative_sound c (alt r q) s m = elim (alt_inv m) [
  | inl n ↦ left (derivative_sound c r s n)
  | inr n ↦ right (derivative_sound c q s n)
]
derivative_sound c (star r) s m =
    let (x, y, e, mx, my) = cat_inv m in again c x y (ap (◌∷◌ c) e) (derivative_sound c r x mx) my

-- Where the first part of a sequence is empty, the rest of the text belongs to the second.
derivative_cat :
    (c : ℕ) (r q : Regex) (t x y : Text)
    → x ++ y ≡ c ∷ t
    → Matches r x
    → ((u : Text) → x ≡ c ∷ u → Matches (derivative c r) u)
    → Matches q y
    → (y ≡ c ∷ t → Matches (derivative c q) t)
    → Matches (derivative c (cat r q)) t
unfolding derivative
derivative_cat c r q t [] y e m first n second =
    let null : nullable r ≡ true = nullable_complete m refl in right (rw null (second e))
derivative_cat c r q t (d ∷ x) y e m first n second = left (a_cat x y (cc) (first x (cc)) n)

derivative_complete :
    (c : ℕ) {r : Regex} {s : Text} (t : Text) → Matches r s → s ≡ c ∷ t → Matches (derivative c r) t
unfolding derivative
derivative_complete c t (an_empty e) h = cc
derivative_complete c t (a_class {p = p} d e k) h =
    let same : d ≡ c = ground arith in
    let here : p c ≡ true = rw (← same) k in rw here (an_empty (cc))
derivative_complete c t (a_cat {r = r} {q = q} x y e m n) h =
    derivative_cat c r q t x y (cc) m (λ u k. derivative_complete c u m k) n
      (λ k. derivative_complete c t n k)
derivative_complete c t (left m) h = left (derivative_complete c t m h)
derivative_complete c t (right m) h = right (derivative_complete c t m h)
derivative_complete c t (stop e) h = cc
derivative_complete c t (again d x y e m n) h = a_cat x y (cc) (derivative_complete c x m (cc)) n

-- `match_string` answers true exactly on the texts of the pattern's language.
pub match_string_iff : (r : Regex) (s : Text) → (match_string r s ≡ true) ↔ Matches r s
unfolding match_string
match_string_iff r [] = (nullable_sound r, λ m. nullable_complete m refl)
match_string_iff r (c ∷ s) =
    let (to, from) = match_string_iff (derivative c r) s in
    (λ h. derivative_sound c r s (to h), λ m. from (derivative_complete c s m refl))
