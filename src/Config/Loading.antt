-- ===== src/Config/Loading.antt =====
-- What `Load` of internal/config/config.go guarantees of the configuration that it returns.
use tecora_be.Prelude.{
  ◌≡◌, refl, sym, ap, ◌∙◌, ◌⊎◌, inl, inr, true, false, [], ◌∷◌, none, arith, is_empty, Bool-cases,
}
use tecora_be.Text.{Text, codes}
use tecora_be.Text.Trim.{trim_space_idempotent}
use tecora_be.Clerk.Verifier.{is_enabled}
use tecora_be.Config.{
  Env, Go, Config, Loaded, loaded, failed, ◌>>=◌, get_http_addr, check_config, clerk_config,
  is_half, load_rest, load, validate,
}

bind_inv :
    {A B : Type 0} (m : Loaded A) (f : A → Loaded B) (b : B)
    → (m >>= f) ≡ loaded b
    → (a : A) × (m ≡ loaded a) × (f a ≡ loaded b)
unfolding ◌>>=◌
bind_inv (loaded a) f b h = (a, refl, h)
bind_inv (failed e) f b h = cc

-- The configuration serves: every required value is there, Clerk is configured whole or not at all.
pub record IsUsable (cfg : Config) : Type 0 where
  pub database : is_empty cfg.database_url ≡ false
  pub bucket : is_empty cfg.gcs_bucket_name ≡ false
  pub app_env : is_empty cfg.app_env ≡ false
  pub address : is_empty cfg.http_addr ≡ false
  pub clerk :
      (is_enabled cfg.clerk ≡ true) ⊎ ((cfg.clerk.issuer_url ≡ []) × (cfg.clerk.jwks_url ≡ []))
  pub valid : validate cfg ≡ none

empty_inv : (s : Text) → is_empty s ≡ true → s ≡ []
empty_inv [] h = refl
empty_inv (c ∷ s) h = cc

address_inv :
    (go : Go) (env : Env) (addr : Text) → get_http_addr go env ≡ loaded addr → is_empty addr ≡ false
unfolding get_http_addr
address_inv go env addr h = ground arith

check_inv :
    (c cfg : Config)
    → check_config c ≡ loaded cfg
    → (c ≡ cfg)
      × (is_empty cfg.database_url ≡ false)
      × (is_empty cfg.gcs_bucket_name ≡ false)
      × (is_empty cfg.app_env ≡ false)
unfolding check_config
check_inv c cfg h = elim (Bool-cases (is_empty c.database_url)) [
  | inl e ↦ ground arith
  | inr d ↦ elim (Bool-cases (is_empty c.gcs_bucket_name)) [
    | inl e ↦ ground arith
    | inr b ↦ elim (Bool-cases (is_empty c.app_env)) [
      | inl e ↦ ground arith
      | inr a ↦
          let same : c ≡ cfg = ground arith in
          (
            same,
            ap (λ (x : Config). is_empty x.database_url) (sym same) ∙ d,
            ap (λ (x : Config). is_empty x.gcs_bucket_name) (sym same) ∙ b,
            ap (λ (x : Config). is_empty x.app_env) (sym same) ∙ a,
          )
    ]
  ]
]

clerk_inv :
    (env : Env)
    → is_half (clerk_config env) ≡ false
    → (is_enabled (clerk_config env) ≡ true)
      ⊎ (((clerk_config env).issuer_url ≡ []) × ((clerk_config env).jwks_url ≡ []))
unfolding is_enabled
clerk_inv env h =
    let issuer = trim_space_idempotent (env (codes "CLERK_ISSUER_URL")) in
    let jwks = trim_space_idempotent (env (codes "CLERK_JWKS_URL")) in
    elim (Bool-cases (is_empty (clerk_config env).issuer_url)) [
      | inl no_issuer ↦ inr (empty_inv _ no_issuer, empty_inv _ (ground arith))
      | inr some_issuer ↦ inl (rw (issuer, jwks) (ground arith))
    ]

valid_of_filled :
    (cfg : Config)
    → is_empty cfg.database_url ≡ false
    → is_empty cfg.gcs_bucket_name ≡ false
    → validate cfg ≡ none
unfolding validate
valid_of_filled cfg d b = rw (d, b) refl

load_rest-IsUsable :
    (go : Go) (env : Env) (cfg : Config)
    → is_half (clerk_config env) ≡ false
    → load_rest go env ≡ loaded cfg
    → IsUsable cfg
unfolding load_rest
load_rest-IsUsable go env cfg whole h =
    let (addr, ha, h1) = bind_inv _ _ _ h in
    let (read, hr, h2) = bind_inv _ _ _ h1 in
    let (write, hw, h3) = bind_inv _ _ _ h2 in
    let (idle, hi, h4) = bind_inv _ _ _ h3 in
    let (shutdown, hs, h5) = bind_inv _ _ _ h4 in
    let (health, hh, h6) = bind_inv _ _ _ h5 in
    let (same, d, b, a) = check_inv _ cfg h6 in
    record {
      database = d;
      bucket = b;
      app_env = a;
      address = ap (λ (x : Config). is_empty x.http_addr) (sym same) ∙ address_inv go env addr ha;
      clerk = rw (← same) (clerk_inv env whole);
      valid = valid_of_filled cfg d b;
    }

-- A configuration that `Load` returns has a database, a bucket, an environment and an address that are
-- not empty, `Validate` accepts it, and in it Clerk is enabled, or both of its URLs are empty.
pub load-IsUsable : (go : Go) (env : Env) (cfg : Config) → load go env ≡ loaded cfg → IsUsable cfg
unfolding load
load-IsUsable go env cfg h = elim (Bool-cases (is_half (clerk_config env))) [
  | inl half ↦ ground arith
  | inr whole ↦ load_rest-IsUsable go env cfg whole (ground arith)
]
