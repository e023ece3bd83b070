-- ===== src/Migrations/Outcome.antt =====
-- When `Up` of internal/migrations/runner.go returns nil, and what it closes.
use tecora_be.Prelude.{
  ℕ, ◌+◌, ◌≡◌, ◌≢◌, ◌&&◌, ◌↔◌, refl, Bool, true, false, List, [], ◌∷◌, ◌++◌, none, arith,
  if◌then◌else◌,
}
use tecora_be.Migrations.{
  Version, nil_version, unreadable, at, Applied, changed, no_change, broken, Driver, Event, Message,
  starting_check, applied_all, runner_closed, database_closed, log_version, close_runner,
  apply_result, run_migrations, with_database, up,
}

abbrev pub is_runner_closed : Event → Bool
is_runner_closed runner_closed = true
is_runner_closed _ = false

abbrev pub is_database_closed : Event → Bool
is_database_closed database_closed = true
is_database_closed _ = false

-- How often an event has happened.
abbrev pub count : (Event → Bool) → List Event → ℕ
count p [] = 0
count p (event ∷ events) = (if p event then 1 else 0) + count p events

count-append :
    (p : Event → Bool) (xs ys : List Event) → count p (xs ++ ys) ≡ count p xs + count p ys
count-append p [] ys = omega arith
count-append p (x ∷ xs) ys = omega (arith, count-append p xs ys)

abbrev pub has_all : Driver → Bool
has_all d = d.pings && d.has_files && d.has_driver && d.has_runner

-- Everything that `Up` needs is there.
abbrev pub IsReady : Driver → Type 0
IsReady d = (d.opens ≡ true) × (has_all d ≡ true)

-- No line of the log closes anything.
log_count :
    (m : Message) (v : Version)
    → (is_runner_closed (log_version m v) ≡ false) × (is_database_closed (log_version m v) ≡ false)
unfolding log_version
log_count m nil_version = (refl, refl)
log_count m unreadable = (refl, refl)
log_count m (at n dirty) = (refl, refl)

apply_lem :
    (v : Version) (a : Applied)
    → (((apply_result v a).0 ≡ none) ↔ (a ≢ broken))
      × (count is_runner_closed (apply_result v a).1 ≡ 0)
      × (count is_database_closed (apply_result v a).1 ≡ 0)
apply_lem v changed =
    let (r, d) = log_count applied_all v in ((λ _. cc, λ _. refl), rw r refl, rw d refl)
apply_lem v no_change = ((λ _. cc, λ _. refl), refl, refl)
apply_lem v broken = ((λ h. cc, λ h. absurd (h refl)), refl, refl)

close_count :
    (d : Driver)
    → (count is_runner_closed (close_runner d) ≡ 1)
      × (count is_database_closed (close_runner d) ≡ 0)
unfolding close_runner
close_count d = ground arith

-- A run with a runner: its result, and what it closes.
run_lem :
    (d : Driver)
    → (((run_migrations d).0 ≡ none) ↔ (d.applied ≢ broken))
      × (count is_runner_closed (run_migrations d).1 ≡ 1)
      × (count is_database_closed (run_migrations d).1 ≡ 0)
unfolding run_migrations
run_lem d =
    let (result, runners, databases) = apply_lem d.version_after d.applied in
    let (quiet, silent) = log_count starting_check d.version_before in
    let events = (apply_result d.version_after d.applied).1 in
    let closed = close_count d in
    (
      result,
      rw quiet
          (omega (arith, count-append is_runner_closed events (close_runner d), runners, closed.0)),
      rw silent (
          omega
            (arith, count-append is_database_closed events (close_runner d), databases, closed.1)),
    )

with_lem :
    (d : Driver)
    → (((with_database d).0 ≡ none) ↔ ((has_all d ≡ true) × (d.applied ≢ broken)))
      × (count is_runner_closed (with_database d).1 ≡ (if has_all d then 1 else 0))
      × (count is_database_closed (with_database d).1 ≡ 0)
unfolding with_database
with_lem d = let (result, runners, databases) = run_lem d in ground arith

-- `Up` returns nil exactly if every call before it succeeds and the runner has applied the migrations
-- or had none to apply. It closes the runner once if there was one and else not, and the database once
-- if it was opened and else not.
pub up_iff :
    (d : Driver)
    → (((up d).0 ≡ none) ↔ (IsReady d × (d.applied ≢ broken)))
      × (count is_runner_closed (up d).1 ≡ (if d.opens && has_all d then 1 else 0))
      × (count is_database_closed (up d).1 ≡ (if d.opens then 1 else 0))
unfolding up
up_iff d =
    let (result, runners, databases) = with_lem d in
    let events = (with_database d).1 in
    let r = count-append is_runner_closed events (database_closed ∷ []) in
    let c = count-append is_database_closed events (database_closed ∷ []) in ground arith
