-- ===== src/Config.antt =====
-- internal/config/config.go. The environment is a function from names to values, empty where a
-- variable is not set; `strconv.Atoi` and `time.ParseDuration` are fields of `Go`.
pub mod DotEnv
pub mod Lists
pub mod Loading
pub mod Lines
mod Tests
use tecora_be.Prelude.{
  ℕ, ◌+◌, ◌*◌, ◌-◌, ◌%◌, ◌^◌, Bool, true, false, not, ◌&&◌, ◌||◌, List, [], ◌∷◌, ◌++◌, Option, none,
  some, is_empty, ltb, leb, ◌==◌, if◌then◌else◌,
}
use tecora_be.Prelude.Int.{negsuc, pos, ℤ}
use tecora_be.Text.{after_prefix, has_prefix, Text, codes, text_eq, trim_space}
use tecora_be.Text.Split.{split}
use tecora_be.Clerk.Verifier.{ClerkConfig}

abbrev pub Env : Type 0
Env = Text → Text

pub record Go : Type 0 where
  pub atoi : Text → Option ℤ
  pub parse_duration : Text → Option ℤ

-- Durations are in nanoseconds.
pub record Config : Type 0 where
  pub app_env : Text
  pub http_addr : Text
  pub database_url : Text
  pub gcs_bucket_name : Text
  pub gcs_document_prefix : Text
  pub admin_clerk_user_ids : List Text
  pub read_timeout : ℤ
  pub write_timeout : ℤ
  pub idle_timeout : ℤ
  pub shutdown_timeout : ℤ
  pub health_timeout : ℤ
  pub cors_allowed_origins : List Text
  pub clerk : ClerkConfig

pub data LoadError : Type 0 where
  half_clerk invalid_port no_database no_bucket no_app_env : LoadError
  invalid_duration : Text → LoadError

pub data Loaded (A : Type 0) : Type 0 where
  loaded : A → Loaded A
  failed : LoadError → Loaded A

infixl 5 ◌>>=◌
unfoldable pub ◌>>=◌ : {A B : Type 0} → Loaded A → (A → Loaded B) → Loaded B
loaded a >>= f = f a
failed e >>= f = failed e

unfoldable pub get_env : Env → Text → Text → Text
unfolding trim_space
get_env env key fallback =
    let value = trim_space (env key) in if is_empty value then fallback else value

-- The loop over the parts.
unfoldable pub trim_parts : List Text → List Text
unfolding trim_space
trim_parts [] = []
trim_parts (part ∷ parts) =
    if is_empty (trim_space part) then trim_parts parts else trim_space part ∷ trim_parts parts

unfoldable pub parse_list : Text → List Text
unfolding split trim_parts trim_space
parse_list raw = if is_empty (trim_space raw) then [] else trim_parts (split b',' raw)

unfoldable pub get_http_addr : Go → Env → Loaded Text
unfolding after_prefix trim_space
get_http_addr go env =
    let port = trim_space (env (codes "PORT")) in
    let addr = trim_space (env (codes "HTTP_ADDR")) in
    if not (is_empty port)
    then (if has_prefix (codes ":") port then loaded port else elim (go.atoi port) [
      | none ↦ failed invalid_port
      | some _ ↦ loaded (codes ":" ++ port)
    ])
    else if not (is_empty addr)
    then loaded addr
    else loaded (codes ":8080")

-- `time.Duration(seconds) * time.Second` in 64 bits.
unfoldable pub seconds : ℤ → ℤ
seconds (pos s) =
    let m = (s * 1000000000) % 2 ^ 64 in if ltb m (2 ^ 63) then pos m else negsuc (2 ^ 64 - m - 1)
seconds (negsuc s) =
    let m = ((s + 1) * 1000000000) % 2 ^ 64 in
    if m == 0 then pos 0 else if leb m (2 ^ 63) then negsuc (m - 1) else pos (2 ^ 64 - m)

unfoldable pub duration_env : Go → Env → Text → ℤ → Loaded ℤ
unfolding seconds trim_space
duration_env go env key fallback =
    let raw = trim_space (env key) in
    if is_empty raw then loaded fallback else elim (go.parse_duration raw) [
      | some parsed ↦ loaded parsed
      | none ↦ elim (go.atoi raw) [
        | some s ↦ loaded (seconds s)
        | none ↦ failed (invalid_duration key)
      ]
    ]

-- The tests at the end of `Load`.
unfoldable pub check_config : Config → Loaded Config
check_config cfg =
    if is_empty cfg.database_url
    then failed no_database
    else if is_empty cfg.gcs_bucket_name
    then failed no_bucket
    else if is_empty cfg.app_env
    then failed no_app_env
    else loaded cfg

abbrev pub clerk_config : Env → ClerkConfig
clerk_config env = record {
  issuer_url = trim_space (env (codes "CLERK_ISSUER_URL"));
  jwks_url = trim_space (env (codes "CLERK_JWKS_URL"));
  audience = trim_space (env (codes "CLERK_AUDIENCE"));
}

abbrev pub is_half : ClerkConfig → Bool
is_half c =
    (not (is_empty c.issuer_url) || not (is_empty c.jwks_url))
    && (is_empty c.issuer_url || is_empty c.jwks_url)

-- `Load` from `getHTTPAddr` on
unfoldable pub load_rest : Go → Env → Loaded Config
unfolding get_env parse_list get_http_addr duration_env check_config trim_space
load_rest go env = do
  http_addr ← get_http_addr go env
  read ← duration_env go env (codes "HTTP_READ_TIMEOUT") (pos 10000000000)
  write ← duration_env go env (codes "HTTP_WRITE_TIMEOUT") (pos 10000000000)
  idle ← duration_env go env (codes "HTTP_IDLE_TIMEOUT") (pos 60000000000)
  shutdown ← duration_env go env (codes "HTTP_SHUTDOWN_TIMEOUT") (pos 10000000000)
  health ← duration_env go env (codes "HEALTH_TIMEOUT") (pos 2000000000)
  check_config (record {
    app_env = get_env env (codes "APP_ENV") (codes "development");
    http_addr = http_addr;
    database_url = trim_space (env (codes "DATABASE_URL"));
    gcs_bucket_name = trim_space (env (codes "GCS_BUCKET_NAME"));
    gcs_document_prefix = get_env env (codes "GCS_DOCUMENT_PREFIX") (codes "acceptances");
    admin_clerk_user_ids = parse_list (get_env env (codes "ADMIN_CLERK_USER_IDS") []);
    read_timeout = read;
    write_timeout = write;
    idle_timeout = idle;
    shutdown_timeout = shutdown;
    health_timeout = health;
    cors_allowed_origins = parse_list (get_env env (codes "CORS_ALLOWED_ORIGINS") []);
    clerk = clerk_config env;
  })

unfoldable pub load : Go → Env → Loaded Config
unfolding load_rest
load go env = if is_half (clerk_config env) then failed half_clerk else load_rest go env

unfoldable pub validate : Config → Option LoadError
validate cfg =
    if is_empty cfg.database_url
    then some no_database
    else if is_empty cfg.gcs_bucket_name
    then some no_bucket
    else none
