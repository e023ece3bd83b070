-- ===== src/Migrations.antt =====
-- internal/migrations/runner.go: what `Up` does with the answers of database/sql and golang-migrate.
mod Tests
pub mod Outcome
use tecora_be.Prelude.{
  ℕ, Bool, true, false, not, List, [], ◌∷◌, ◌++◌, Option, none, some, if◌then◌else◌,
}

-- What `runner.Version` returns.
pub data Version : Type 0 where
  nil_version unreadable : Version
  at : ℕ → Bool → Version

-- What `runner.Up` returns.
pub data Applied : Type 0 where
  changed no_change broken : Applied

pub record Driver : Type 0 where
  pub opens : Bool
  pub pings : Bool
  pub has_files : Bool
  pub has_driver : Bool
  pub has_runner : Bool
  pub version_before : Version
  pub applied : Applied
  pub version_after : Version
  pub source_closes : Bool
  pub database_closes : Bool

-- The call whose error `Up` returns.
pub data Stage : Type 0 where
  open_database ping_database open_files configure_driver create_runner apply : Stage

pub data Message : Type 0 where
  starting_check applied_all : Message

-- The lines of the log, and the calls that close what was opened.
pub data Event : Type 0 where
  version_none : Message → Event
  version_is : Message → ℕ → Bool → Event
  version_unread : Event
  no_pending : Event
  source_not_closed : Event
  database_not_closed : Event
  runner_closed : Event
  database_closed : Event

unfoldable pub log_version : Message → Version → Event
log_version message nil_version = version_none message
log_version message unreadable = version_unread
log_version message (at version dirty) = version_is message version dirty

unfoldable pub close_runner : Driver → List Event
close_runner d =
    runner_closed
    ∷ ((if d.source_closes then [] else source_not_closed ∷ [])
        ++ (if d.database_closes then [] else database_not_closed ∷ []))

abbrev pub apply_result : Version → Applied → Option Stage × List Event
apply_result after changed = (none, log_version applied_all after ∷ [])
apply_result after no_change = (none, no_pending ∷ [])
apply_result after broken = (some apply, [])

-- `Up` with a runner, and the deferred `closeRunner`
unfoldable pub run_migrations : Driver → Option Stage × List Event
run_migrations d =
    let (result, events) = apply_result d.version_after d.applied in
    (result, log_version starting_check d.version_before ∷ (events ++ close_runner d))

-- … with an open database
unfoldable pub with_database : Driver → Option Stage × List Event
with_database d =
    if not d.pings
    then (some ping_database, [])
    else if not d.has_files
    then (some open_files, [])
    else if not d.has_driver
    then (some configure_driver, [])
    else if not d.has_runner
    then (some create_runner, [])
    else run_migrations d

-- The error, if there is one, and what has happened; the last is the deferred `sqlDB.Close`.
unfoldable pub up : Driver → Option Stage × List Event
up d =
    let (result, events) = with_database d in
    if not d.opens then (some open_database, []) else (result, events ++ database_closed ∷ [])
