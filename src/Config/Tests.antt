-- ===== src/Config/Tests.antt =====
-- Runs of the configuration, and the theorems about it at concrete inputs.
use tecora_be.Prelude.{◌≡◌, refl, [], ◌∷◌, none, some, if◌then◌else◌}
use tecora_be.Prelude.Int.{negsuc, pos}
use tecora_be.Text.{codes, text_eq, is_space}
use tecora_be.Config.DotEnv.{read_line}
use tecora_be.Config.{Env, Go, Config, loaded, ◌>>=◌, parse_list, seconds, load}
use tecora_be.Config.Loading.{IsUsable, load-IsUsable}
use tecora_be.Config.Lines.{read_line-quoted}

list_runs :
    (parse_list (codes " a, ,b ,") ≡ codes "a" ∷ codes "b" ∷ []) × (parse_list (codes "  ") ≡ [])
unfolding parse_list
list_runs = (refl, refl)

seconds_runs :
    (seconds (pos 10) ≡ pos 10000000000)
    × (seconds (negsuc 0) ≡ negsuc 999999999)
    × (seconds (pos 9223372037) ≡ negsuc 9223372036709551615)
unfolding seconds
seconds_runs = (refl, refl, refl)

line_runs :
    (read_line (codes "export KEY = 'a b' ") ≡ some (codes "KEY", codes "a b"))
    × (read_line (codes " # KEY=1") ≡ none)
    × (read_line (codes "KEY") ≡ none)
unfolding read_line
line_runs = (refl, refl, refl)

abbrev go : Go
go = record { atoi = λ _. some (pos 8000); parse_duration = λ _. some (pos 5) }

-- Every variable is set to "8000", but the PORT is not set.
abbrev env : Env
env k = if text_eq k (codes "PORT") then [] else codes "8000"

abbrev cfg : Config
cfg = record {
  app_env = codes "8000";
  http_addr = codes "8000";
  database_url = codes "8000";
  gcs_bucket_name = codes "8000";
  gcs_document_prefix = codes "8000";
  admin_clerk_user_ids = codes "8000" ∷ [];
  read_timeout = pos 5;
  write_timeout = pos 5;
  idle_timeout = pos 5;
  shutdown_timeout = pos 5;
  health_timeout = pos 5;
  cors_allowed_origins = codes "8000" ∷ [];
  clerk = record { issuer_url = codes "8000"; jwks_url = codes "8000"; audience = codes "8000" };
}

load_runs : load go env ≡ loaded cfg
unfolding load ◌>>=◌ text_eq
load_runs = refl

load-IsUsable_example : IsUsable cfg
load-IsUsable_example = load-IsUsable go env cfg load_runs

read_line-quoted_example : read_line (codes "KEY=\" a#b \"") ≡ some (codes "KEY", codes " a#b ")
unfolding is_space
read_line-quoted_example =
    read_line-quoted b'K' (codes "EY") (codes " a#b ")
      ((refl, refl), ((refl, refl), ((refl, refl), tt))) refl
