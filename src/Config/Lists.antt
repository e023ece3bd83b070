-- ===== src/Config/Lists.antt =====
-- What `parseList` of internal/config/config.go reads.
use mathlib.Core.List.{Memᴰ}
use tecora_be.Prelude.{
  ℕ, ◌≡◌, refl, sym, ap, ◌∙◌, ◌↔◌, ◌⊎◌, true, false, List, [], ◌∷◌, ◌++◌, arith, All, is_empty,
  ◌==◌, Bool-cases, inl, inr,
}
use mathlib.Core.List.{append_assoc, append-nil}
use tecora_be.Text.{Text, is_space, trim_left, trim_right, trim_space}
use tecora_be.Text.Split.{split, split_from}
use tecora_be.Config.{trim_parts, parse_list}

-- A blank text is all space.
blank_spaces : (s : Text) → is_empty (trim_space s) ≡ true → All (λ c. is_space c ≡ true) s
unfolding trim_space trim_left trim_right
blank_spaces [] h = tt
blank_spaces (c ∷ s) h = elim (Bool-cases (is_space c)) [
  | inl space ↦ (space, blank_spaces s (ground arith))
  | inr solid ↦ ground arith
]

comma_solid : (c : ℕ) → is_space c ≡ true → c == b',' ≡ false
unfolding is_space
comma_solid c h = ground arith

split_from_spaces :
    (read s : Text) → All (λ c. is_space c ≡ true) s → split_from b',' read s ≡ (read ++ s) ∷ []
unfolding split_from
split_from_spaces read [] h = ap (λ t. t ∷ []) (sym (append-nil read))
split_from_spaces read (c ∷ s) h =
    rw (comma_solid c h.0, split_from_spaces (read ++ c ∷ []) s h.1)
      (ap (λ t. t ∷ []) (append_assoc read (c ∷ []) s))

-- Its early return is what the loop gives too.
parse_list-trim_parts : (raw : Text) → parse_list raw ≡ trim_parts (split b',' raw)
unfolding parse_list split trim_parts
parse_list-trim_parts raw = elim (Bool-cases (is_empty (trim_space raw))) [
  | inr full ↦ rw full refl
  | inl blank ↦ rw (blank, split_from_spaces [] raw (blank_spaces raw blank), blank) refl
]

mem_cons_inv : {A : Type 0} {v x : A} {xs : List A} → Memᴰ v (x ∷ xs) → (v ≡ x) ⊎ Memᴰ v xs
mem_cons_inv (Memᴰ.head e) = inl e
mem_cons_inv (Memᴰ.tail m) = inr m

trim_parts_iff :
    (v : Text) (parts : List Text)
    → Memᴰ v (trim_parts parts)
      ↔ ((part : Text) × Memᴰ part parts × (v ≡ trim_space part) × (is_empty v ≡ false))
unfolding trim_parts
trim_parts_iff v [] = (λ m. elim m [ ], λ (part, m, e, full). elim m [ ])
trim_parts_iff v (p ∷ parts) =
    let (to, from) = trim_parts_iff v parts in
    elim (Bool-cases (is_empty (trim_space p))) [
      | inl blank ↦ rw blank (
        λ m. let (part, member, e, full) = to m in (part, Memᴰ.tail member, e, full),
        λ (part, m, e, full). elim (mem_cons_inv m) [
          | inl same ↦ ground arith
          | inr later ↦ from (part, later, e, full)
        ],
      )
      | inr solid ↦ rw solid (
        λ m. elim (mem_cons_inv m) [
          | inl same ↦ (p, Memᴰ.head refl, same, ap is_empty same ∙ solid)
          | inr later ↦ let (part, member, e, full) = to later in (part, Memᴰ.tail member, e, full)
        ],
        λ (part, m, e, full). elim (mem_cons_inv m) [
          | inl same ↦ Memᴰ.head (e ∙ ap trim_space same)
          | inr later ↦ Memᴰ.tail (from (part, later, e, full))
        ],
      )
    ]

-- `parseList` gives exactly the parts between commas that are not blank, trimmed.
pub parse_list_iff :
    (v raw : Text)
    → Memᴰ v (parse_list raw)
      ↔ ((part : Text) × Memᴰ part (split b',' raw) × (v ≡ trim_space part) × (is_empty v ≡ false))
parse_list_iff v raw = rw (parse_list-trim_parts raw) (trim_parts_iff v (split b',' raw))
