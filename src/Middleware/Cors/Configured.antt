-- ===== src/Middleware/Cors/Configured.antt =====
-- Which origins `CORS` of internal/middleware/cors.go allows.
use mathlib.Core.List.{Memᴰ}
use tecora_be.Prelude.{
  ◌≡◌, refl, sym, ◌⊎◌, inl, inr, true, List, [], ◌∷◌, some, arith, any, is_empty, Bool-cases,
}
use tecora_be.Text.{Text, codes, text_eq, trim_space}
use tecora_be.Text.Trim.{text_eq_iff}
use tecora_be.Gin.{Request}
use tecora_be.Middleware.Cors.{add_origin, read_origins, origin_headers, cors}

-- An entry of the configuration, blanks at its ends aside.
abbrev pub IsConfigured : List Text → Text → Type 0
IsConfigured raws origin = (raw : Text) × Memᴰ raw raws × (trim_space raw ≡ origin)

widen :
    (raw : Text) (raws : List Text) (o : Text) → IsConfigured raws o → IsConfigured (raw ∷ raws) o
widen raw raws o (r, m, e) = (r, Memᴰ.tail m, e)

allowed_inv :
    (raws : List Text) (origin : Text)
    → any (text_eq origin) (read_origins raws).allowed ≡ true
    → IsConfigured raws origin
unfolding read_origins add_origin
allowed_inv [] origin h = cc
allowed_inv (raw ∷ raws) origin h = elim (Bool-cases (is_empty (trim_space raw))) [
  | inl blank ↦ widen raw raws origin (allowed_inv raws origin (ground arith))
  | inr full ↦ elim (Bool-cases (text_eq (trim_space raw) (codes "*"))) [
    | inl star ↦ widen raw raws origin (allowed_inv raws origin (ground arith))
    | inr plain ↦ elim (Bool-cases (text_eq origin (trim_space raw))) [
      | inl here ↦ (raw, Memᴰ.head refl, sym ((text_eq_iff origin (trim_space raw)).0 here))
      | inr away ↦ widen raw raws origin (allowed_inv raws origin (ground arith))
    ]
  ]
]

all_inv : (raws : List Text) → (read_origins raws).allow_all ≡ true → IsConfigured raws (codes "*")
unfolding read_origins add_origin
all_inv [] h = cc
all_inv (raw ∷ raws) h = elim (Bool-cases (is_empty (trim_space raw))) [
  | inl blank ↦ widen raw raws (codes "*") (all_inv raws (ground arith))
  | inr full ↦ elim (Bool-cases (text_eq (trim_space raw) (codes "*"))) [
    | inl star ↦ (raw, Memᴰ.head refl, (text_eq_iff (trim_space raw) (codes "*")).0 star)
    | inr plain ↦ widen raw raws (codes "*") (all_inv raws (ground arith))
  ]
]

-- An origin that `CORS` allows is an entry of the configuration, and it is "*" or the origin of the
-- request.
pub cors-IsConfigured :
    (raws : List Text) (r : Request) (o : Text)
    → (cors raws r).0.allow_origin ≡ some o
    → IsConfigured raws o × ((o ≡ codes "*") ⊎ (o ≡ r.origin))
unfolding cors origin_headers
cors-IsConfigured raws r o h = elim (Bool-cases (is_empty r.origin)) [
  | inl blank ↦ ground arith
  | inr full ↦ elim (Bool-cases (read_origins raws).allow_all) [
    | inl star ↦
        let same : codes "*" ≡ o = ground arith in (rw (← same) (all_inv raws star), inl (sym same))
    | inr listed ↦ elim (Bool-cases (any (text_eq r.origin) (read_origins raws).allowed)) [
      | inr away ↦ ground arith
      | inl here ↦
          let same : r.origin ≡ o = ground arith in
          (rw (← same) (allowed_inv raws r.origin here), inr (sym same))
    ]
  ]
]
