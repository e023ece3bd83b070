-- ===== src/App/Startup.antt =====
-- What has happened when the server of internal/app/app.go starts, and what is closed when `Run` returns.
use tecora_be.Prelude.{
  ◌≡◌, refl, ◌⊎◌, inl, inr, true, false, List, [], ◌∷◌, none, some, arith, Bool-cases, Option-cases,
}
use tecora_be.Clerk.Verifier.{is_enabled}
use tecora_be.Config.{Config}
use tecora_be.Migrations.{up}
use tecora_be.App.{
  Step, load_config, new_database, run_migrations, new_verifier, run_server, close_database,
  Outside, serve_with, migrate, run,
}

-- The run of a server: a configuration, a database that answers and is migrated, with the verifier
-- that the configuration enables, and the database closed at the end.
pub record IsServing (o : Outside) (steps : List Step) : Type 0 where
  pub cfg : Config
  pub config : o.config ≡ some cfg
  pub database : o.database ≡ true
  pub migrations : (up o.migrations).0 ≡ none
  pub steps_are :
      ((is_enabled cfg.clerk ≡ false)
        × (steps
            ≡ load_config ∷ new_database ∷ run_migrations ∷ run_server none ∷ close_database ∷ []))
      ⊎ ((is_enabled cfg.clerk ≡ true)
          × (steps
              ≡ load_config
                ∷ new_database
                ∷ run_migrations
                ∷ new_verifier
                ∷ run_server (some cfg.clerk)
                ∷ close_database
                ∷ []))

-- If `Run` returns nil, it has loaded a configuration, connected to the database, migrated it, made the
-- verifier if and only if Clerk is enabled, run the server with it, and closed the database, each once
-- and in this order.
pub run-IsServing : (o : Outside) → (run o).0 ≡ true → IsServing o (run o).1
unfolding run migrate serve_with
run-IsServing o h = elim (Option-cases o.config) [
  | inl absent ↦ ground arith
  | inr (cfg, read) ↦ elim (Bool-cases o.database) [
    | inr down ↦ ground arith
    | inl answers ↦ elim (Option-cases (up o.migrations).0) [
      | inr (stage, failed) ↦ ground arith
      | inl done ↦ elim (Bool-cases (is_enabled cfg.clerk)) [
        | inr off ↦ record {
          cfg = cfg;
          config = read;
          database = answers;
          migrations = done;
          steps_are = inl (off, rw (read, answers, done, off) refl);
        }
        | inl on ↦ elim (Bool-cases o.verifier) [
          | inr broken ↦ ground arith
          | inl made ↦ record {
            cfg = cfg;
            config = read;
            database = answers;
            migrations = done;
            steps_are = inr (on, rw (read, answers, done, on, made) refl);
          }
        ]
      ]
    ]
  ]
]
