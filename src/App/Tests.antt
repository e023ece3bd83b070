-- ===== src/App/Tests.antt =====
-- A start of the process, and the theorem about it at this input.
use tecora_be.Prelude.{◌≡◌, refl, true, false, [], some}
use tecora_be.Prelude.Int.{pos}
use tecora_be.Text.{codes}
use tecora_be.Config.{Config}
use tecora_be.Migrations.{Version, Applied, Driver, up, with_database, run_migrations}
use tecora_be.Server.Lifetime.{Failure, Ended, stop_of}
use tecora_be.App.{Outside, run}
use tecora_be.App.Startup.{IsServing, run-IsServing}

abbrev cfg : Config
cfg = record {
  app_env = codes "production";
  http_addr = codes ":80";
  database_url = codes "db";
  gcs_bucket_name = codes "bucket";
  gcs_document_prefix = codes "docs";
  admin_clerk_user_ids = [];
  read_timeout = pos 5;
  write_timeout = pos 5;
  idle_timeout = pos 5;
  shutdown_timeout = pos 5;
  health_timeout = pos 5;
  cors_allowed_origins = [];
  clerk = record { issuer_url = codes "i"; jwks_url = codes "j"; audience = [] };
}

abbrev driver : Driver
driver = record {
  opens = true;
  pings = true;
  has_files = true;
  has_driver = true;
  has_runner = true;
  version_before = Version.at 6 false;
  applied = Applied.no_change;
  version_after = Version.at 6 false;
  source_closes = true;
  database_closes = true;
}

abbrev outside : Outside
outside = record {
  config = some cfg;
  database = true;
  migrations = driver;
  verifier = true;
  ended = Ended.asked (some Failure.canceled);
}

returns : (run outside).0 ≡ true
unfolding run up with_database run_migrations stop_of
returns = refl

run-IsServing_example : IsServing outside (run outside).1
run-IsServing_example = run-IsServing outside returns
