-- ===== src/Middleware/Auth/Guards.antt =====
-- What the middlewares of internal/middleware/auth.go have established of a request that they let
-- through, and which requests those are.
use mathlib.Core.List.{Memᴰ}
use tecora_be.Prelude.{
  ◌≡◌, refl, sym, ◌∙◌, ap, ◌↔◌, inl, inr, Bool, true, false, List, [], ◌∷◌, Option, none, some,
  arith, any, is_empty, Bool-cases, Option-cases,
}
use tecora_be.Text.{Text, codes, text_eq, trim_space, fields}
use tecora_be.Text.Trim.{text_eq_iff, trim_space_idempotent}
use tecora_be.Gin.{Claims, Key, Value, Context, set, next}
use tecora_be.Middleware.Auth.{
  TokenVerifier, Verified, claims, refused, not_configured, invalid, equal_fold, bearer_token,
  admit, clerk_auth, allowed_ids, find_claims, clerk_admin_allowlist, clerk_org_scope,
  current_claims, current_org_slug,
}

-- The header is the word "Bearer", in any case, and one more word.
abbrev pub Bears : Text → Text → Type 0
Bears header token =
    (scheme : Text) × (fields (trim_space header) ≡ scheme ∷ token ∷ [])
    × (equal_fold scheme (codes "Bearer") ≡ true)

abbrev pub IsVerified : Option TokenVerifier → Context → Claims → Type 0
IsVerified v c cl =
    (tv : TokenVerifier) × (token : Text) × (v ≡ some tv)
    × (tv.enabled ≡ true)
    × Bears c.request.authorization token
    × (tv.verify (trim_space token) ≡ claims cl)

abbrev pub with_claims : Claims → Context → Context
with_claims cl c = set Key.claims (Value.claims (some cl)) c

bearer_token_inv :
    (words : List Text) (t : Text)
    → bearer_token words ≡ some t
    → (scheme : Text) × (token : Text) × (words ≡ scheme ∷ token ∷ [])
      × (equal_fold scheme (codes "Bearer") ≡ true)
      × (t ≡ trim_space token)
unfolding bearer_token
bearer_token_inv [] t h = cc
bearer_token_inv (scheme ∷ []) t h = cc
bearer_token_inv (scheme ∷ token ∷ []) t h = (scheme, token, refl, ground arith, ground arith)
bearer_token_inv (scheme ∷ token ∷ more ∷ rest) t h = cc

admit_inv :
    (c c' : Context) (r : Verified)
    → admit c r ≡ next c'
    → (cl : Claims) × (r ≡ claims cl) × (c' ≡ with_claims cl c)
unfolding admit
admit_inv c c' (claims cl) h = (cl, refl, ground arith)
admit_inv c c' (refused not_configured) h = cc
admit_inv c c' (refused invalid) h = cc

clerk_auth_inv :
    (v : Option TokenVerifier) (c c' : Context)
    → clerk_auth v c ≡ next c'
    → (cl : Claims) × IsVerified v c cl × (c' ≡ with_claims cl c)
unfolding clerk_auth
clerk_auth_inv none c c' h = cc
clerk_auth_inv (some tv) c c' h =
    elim (Option-cases (bearer_token (fields (trim_space c.request.authorization)))) [
      | inl absent ↦ ground arith
      | inr (t, e) ↦
          let (scheme, token, words, folds, same) = bearer_token_inv _ t e in
          let enabled : tv.enabled ≡ true = ground arith in
          let admitted : admit c (tv.verify t) ≡ next c' = ground arith in
          let (cl, verified, after) = admit_inv c c' (tv.verify t) admitted in
          (
            cl,
            (tv, token, refl, enabled, (scheme, words, folds), ap tv.verify (sym same) ∙ verified),
            after,
          )
    ]

fields_nil : (header : Text) (w v : Text) → fields header ≡ w ∷ v ∷ [] → is_empty header ≡ false
unfolding fields
fields_nil [] w v h = cc
fields_nil (c ∷ s) w v h = refl

clerk_auth_admits :
    (v : Option TokenVerifier) (c : Context) (cl : Claims)
    → IsVerified v c cl
    → clerk_auth v c ≡ next (with_claims cl c)
unfolding clerk_auth bearer_token admit
clerk_auth_admits v c cl (tv, token, here, enabled, (scheme, words, folds), verified) = rw (
  here,
  enabled,
  fields_nil (trim_space c.request.authorization) scheme token words,
  words,
  folds,
  verified,
)

-- `ClerkAuth` lets a request through exactly if a verifier is given and enabled, the header is
-- "Bearer" in any case with one more word, and the verifier accepts that word; the context then
-- holds the verified claims and is else unchanged.
pub clerk_auth_iff :
    (v : Option TokenVerifier) (c c' : Context)
    → (clerk_auth v c ≡ next c') ↔ ((cl : Claims) × IsVerified v c cl × (c' ≡ with_claims cl c))
clerk_auth_iff v c c' =
    (clerk_auth_inv v c c', λ (cl, verified, after). rw after (clerk_auth_admits v c cl verified))

-- An identifier of the configuration that names the subject, blanks at the ends aside.
abbrev pub IsListed : List Text → Text → Type 0
IsListed ids subject =
    (id : Text) × Memᴰ id ids
    × (trim_space id ≡ trim_space subject)
    × (is_empty (trim_space id) ≡ false)

abbrev allows : List Text → Text → Bool
allows ids subject = any (λ id. text_eq id (trim_space subject)) (allowed_ids ids)

IsListed-cons :
    (id : Text) (ids : List Text) (subject : Text)
    → IsListed ids subject
    → IsListed (id ∷ ids) subject
IsListed-cons id ids subject (k, at, same, full) = (k, Memᴰ.tail at, same, full)

allows_sound : (ids : List Text) (subject : Text) → allows ids subject ≡ true → IsListed ids subject
unfolding allowed_ids
allows_sound [] subject h = cc
allows_sound (id ∷ ids) subject h = elim (Bool-cases (is_empty (trim_space id))) [
  | inl blank ↦ IsListed-cons id ids subject (allows_sound ids subject (ground arith))
  | inr full ↦ elim (Bool-cases (text_eq (trim_space id) (trim_space subject))) [
    | inl same ↦ (id, Memᴰ.head refl, (text_eq_iff _ _).0 same, full)
    | inr other ↦ IsListed-cons id ids subject (allows_sound ids subject (ground arith))
  ]
]

allows_complete :
    (ids : List Text) (subject : Text) → IsListed ids subject → allows ids subject ≡ true
unfolding allowed_ids
allows_complete [] subject (k, at, same, full) = elim at [ ]
allows_complete (id ∷ ids) subject (k, Memᴰ.head e, same, full) =
    let here : text_eq (trim_space id) (trim_space subject) ≡ true =
      (text_eq_iff _ _).1 (ap trim_space (sym e) ∙ same) in
    let filled : is_empty (trim_space id) ≡ false =
      ap (λ i. is_empty (trim_space i)) (sym e) ∙ full in
    rw (filled, here)
allows_complete (id ∷ ids) subject (k, Memᴰ.tail at, same, full) =
    ground (arith, allows_complete ids subject (k, at, same, full))

nonempty_of_any : (p : Text → Bool) (ids : List Text) → any p ids ≡ true → is_empty ids ≡ false
nonempty_of_any p [] h = cc
nonempty_of_any p (id ∷ ids) h = refl

allowlist_inv :
    (ids : List Text) (c c' : Context)
    → clerk_admin_allowlist ids c ≡ next c'
    → (c' ≡ c) × ((cl : Claims) × (current_claims c ≡ some cl) × IsListed ids cl.subject)
unfolding clerk_admin_allowlist find_claims current_claims
allowlist_inv ids c c' h = elim (Option-cases (current_claims c)) [
  | inl absent ↦ ground arith
  | inr (cl, e) ↦
      let listed : allows ids cl.subject ≡ true = ground arith in
      (ground arith, (cl, e, allows_sound ids cl.subject listed))
]

allowlist_admits :
    (ids : List Text) (c : Context) (cl : Claims)
    → current_claims c ≡ some cl
    → IsListed ids cl.subject
    → clerk_admin_allowlist ids c ≡ next c
unfolding clerk_admin_allowlist find_claims current_claims
allowlist_admits ids c cl e listed =
    let here = allows_complete ids cl.subject listed in
    let filled =
      nonempty_of_any (λ id. text_eq id (trim_space cl.subject)) (allowed_ids ids) here in
    ground arith

-- `ClerkAdminAllowlist` lets a request through exactly if its context holds claims whose subject is
-- a configured identifier, blanks at the ends of both aside and blank identifiers not counted; it
-- leaves the context alone.
pub clerk_admin_allowlist_iff :
    (ids : List Text) (c c' : Context)
    → (clerk_admin_allowlist ids c ≡ next c')
      ↔ ((c' ≡ c) × ((cl : Claims) × (current_claims c ≡ some cl) × IsListed ids cl.subject))
clerk_admin_allowlist_iff ids c c' = (
  allowlist_inv ids c c',
  λ (same, (cl, e, listed)). rw same (allowlist_admits ids c cl e listed),
)

pub current_claims-set :
    (c : Context) (cl : Claims)
    → current_claims (set Key.claims (Value.claims (some cl)) c) ≡ some cl
unfolding current_claims set
current_claims-set c cl = refl

-- Behind `ClerkAuth` and `ClerkOrgScope` the current slug is the trimmed slug of the verified
-- claims, and it counts as present.
pub org_scope_slug :
    (v : Option TokenVerifier) (c c' c'' : Context)
    → clerk_auth v c ≡ next c'
    → clerk_org_scope c' ≡ next c''
    → (cl : Claims) × IsVerified v c cl × (current_org_slug c'' ≡ (trim_space cl.org_slug, true))
unfolding clerk_org_scope current_org_slug set
org_scope_slug v c c' c'' h k =
    let (cl, verified, after) = clerk_auth_inv v c c' h in
    let there : c'.keys Key.claims ≡ some (Value.claims (some cl)) = rw after in
    let again = trim_space_idempotent cl.org_slug in (cl, verified, ground arith)
