-- ===== src/Migrations/Tests.antt =====
-- Runs of the migrations, and the theorem about them at one of them.
use tecora_be.Prelude.{◌≡◌, ◌≢◌, ◌↔◌, refl, true, false, none, some, [], ◌∷◌}
use tecora_be.Migrations.{
  nil_version, at, broken, changed, Driver, Stage, up, with_database, run_migrations, log_version,
  close_runner, version_none, version_is, runner_closed, source_not_closed, database_closed,
  starting_check, applied_all,
}
use tecora_be.Migrations.Outcome.{IsReady, is_runner_closed, is_database_closed, count, up_iff}

abbrev driver : Driver
driver = record {
  opens = true;
  pings = true;
  has_files = true;
  has_driver = true;
  has_runner = true;
  version_before = nil_version;
  applied = changed;
  version_after = at 6 false;
  source_closes = false;
  database_closes = true;
}

migrates : up driver ≡ (
  none,
  version_none starting_check
      ∷ version_is applied_all 6 false
      ∷ runner_closed
      ∷ source_not_closed
      ∷ database_closed
      ∷ [],
)
unfolding up with_database run_migrations log_version close_runner
migrates = refl

unreachable :
    up (record driver { pings = false }) ≡ (some Stage.ping_database, database_closed ∷ [])
unfolding up with_database run_migrations log_version close_runner
unreachable = refl

up_iff_example :
    (((up driver).0 ≡ none) ↔ (IsReady driver × (driver.applied ≢ broken)))
    × (count is_runner_closed (up driver).1 ≡ 1)
    × (count is_database_closed (up driver).1 ≡ 1)
up_iff_example = up_iff driver
