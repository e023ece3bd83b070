-- ===== src/App.antt =====
-- internal/app/app.go: the order in which `Run` starts the parts, and which it closes. What each part
-- answers is a parameter.
mod Tests
pub mod Startup
use tecora_be.Prelude.{
  Bool, true, false, not, List, [], ◌∷◌, ◌++◌, Option, none, some, if◌then◌else◌,
}
use tecora_be.Clerk.Verifier.{ClerkConfig, is_enabled}
use tecora_be.Config.{Config}
use tecora_be.Migrations.{Driver, up}
use tecora_be.Server.Lifetime.{Stop, clean, canceled, broken, Ended, stop_of}

-- The calls of `Run`, in the order in which they happen.
pub data Step : Type 0 where
  load_config new_database run_migrations : Step
  new_verifier : Step
  run_server : Option ClerkConfig → Step
  close_database : Step

-- What the calls answer.
pub record Outside : Type 0 where
  pub config : Option Config
  pub database : Bool
  pub migrations : Driver
  pub verifier : Bool
  pub ended : Ended

-- Whether `Run` returns nil.
abbrev pub is_clean : Stop → Bool
is_clean broken = false
is_clean _ = true

-- `Run` from the verifier on, before the deferred call of `closeDatabase`
unfoldable pub serve_with : Outside → Config → Bool × List Step
unfolding is_enabled
serve_with o cfg =
    if not (is_enabled cfg.clerk)
    then (is_clean (stop_of o.ended), run_server none ∷ [])
    else if o.verifier
    then (is_clean (stop_of o.ended), new_verifier ∷ run_server (some cfg.clerk) ∷ [])
    else (false, new_verifier ∷ [])

-- … from the answer of `migrations.Up` on
abbrev pub after_migrations : {E : Type 0} → Option E → Bool × List Step → Bool × List Step
after_migrations none (result, steps) = (result, run_migrations ∷ steps)
after_migrations (some e) _ = (false, run_migrations ∷ [])

-- … from the connected database on
unfoldable pub migrate : Outside → Config → Bool × List Step
unfolding serve_with
migrate o cfg = after_migrations (up o.migrations).0 (serve_with o cfg)

unfoldable pub run : Outside → Bool × List Step
unfolding migrate
run o = elim o.config [
  | none ↦ (false, load_config ∷ [])
  | some cfg ↦
      let (result, steps) = migrate o cfg in
      if o.database
      then (result, load_config ∷ new_database ∷ (steps ++ close_database ∷ []))
      else (false, load_config ∷ new_database ∷ [])
]
