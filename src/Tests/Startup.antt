-- ===== src/Tests/Startup.antt =====
-- The theorems on the configuration and on the process, at small environments.
use inventory_service.Base.{
  ℕ, ◌+◌, ◌≤◌, ◌≤ℤ◌, codes, text_eq, text_discrete, ℕ_discrete, pos, ◌≡◌, ◌↔◌, refl, subst, true,
  false, if◌then◌else◌, none, some, parse_int, [], ◌∷◌,
}
use inventory_service.Domain.Errors.{ok}
use inventory_service.Config.Env.{Environment, DurationParser, get_env, contains, to_lower}
use inventory_service.Config.Load.{load, load_database}
use inventory_service.Config.Validate.{validate_config, validate_for_subcommand, validate_database}
use inventory_service.Config.Bounds.{load_bounds}
use inventory_service.Config.Fields.{starts}
use inventory_service.Config.Servable.{validate_config_exact, starts_with_db, AgreeOnDb}
use inventory_service.Process.Start.{Externals, start, apply_seed}
use inventory_service.Process.Stop.{Work, outcome_graceful, outcome_error, run_graceful_shutdown}
use inventory_service.Process.Safety.{fate_of}
use inventory_service.Process.Seeding.{start_seed_unset}
use inventory_service.Process.Time.{reported, is_graceful, run_graceful_shutdown_ends}

-- Every duration reads as 20 seconds.
abbrev twenty : DurationParser
twenty s = some (pos 20000000000)

-- An init container: a host, and no service name.
abbrev container : Environment
container key = if text_eq key (codes "DB_HOST") then codes "db" else []

-- The same, with a service name.
abbrev named : Environment
named key = if text_eq key (codes "SERVICE_NAME") then codes "inventory" else container key

load_bounds_example :
    (pos 1 ≤ℤ (load twenty named).shutdown_timeout)
    × ((load twenty named).shutdown_timeout ≤ℤ pos 60)
    × (pos 1 ≤ℤ (load twenty named).readiness_drain_delay)
    × ((load twenty named).readiness_drain_delay ≤ℤ pos 30)
load_bounds_example = load_bounds twenty named

validate_config_exact_example : (validate_config (load twenty named) ≡ []) ↔ (starts named ≡ true)
validate_config_exact_example = validate_config_exact twenty named

named_agrees : AgreeOnDb container named
unfolding text_discrete ℕ_discrete
named_agrees key h =
    elim (text_discrete key (codes "SERVICE_NAME"))
      as (λ d.
        container key
        ≡ (if (elim d [ yes _ ↦ true | no _ ↦ false ]) then codes "inventory" else container key)) [
          | yes e ↦ absurd (no_db_prefix (subst (λ k. starts_with_db k ≡ true) e h))
          | no _ ↦ refl
        ]
  where
    no_db_prefix : starts_with_db (codes "SERVICE_NAME") ≡ true → ⊥
    no_db_prefix h = cc

-- A database that counts what was done to it, with one seed file.
abbrev outside : Externals ℕ
outside = record {
  migrate = λ n. (none, n + 1);
  parse_dsn = none;
  open_pool = none;
  read_dir = ok (codes "1.up.sql" ∷ codes "README" ∷ []);
  read_file = λ name. ok name;
  exec = λ text n. ok (n + 1);
  connect = none;
  listen = none;
  new_verifier = none;
}

-- A stream that hangs for a minute.
abbrev hanging : Work
hanging = record {
  http = 5;
  http_fails = false;
  grpc = 60000000000;
  stop = 7;
  pool = 3;
  telemetry = some 4;
  telemetry_fails = false;
}

run_graceful_shutdown_ends_example :
    ((run_graceful_shutdown (load twenty named) hanging).0 ≤ 105000000000 + 7 + 3)
    × (reported (run_graceful_shutdown (load twenty named) hanging).1
        ≡ (if is_graceful (load twenty named) hanging then outcome_graceful else outcome_error)
          ∷ [])
run_graceful_shutdown_ends_example = run_graceful_shutdown_ends twenty named hanging

-- What an init container has: the database, and no ENV.
abbrev db_only : Environment
db_only key =
    if text_eq key (codes "DB_HOST")
    then codes "db"
    else if text_eq key (codes "DB_NAME")
    then codes "inventory"
    else if text_eq key (codes "DB_USER")
    then codes "app"
    else if text_eq key (codes "DB_PASSWORD")
    then codes "secret"
    else []

start_seed_unset_example :
    start outside (codes "seed" ∷ []) (load twenty db_only) 0
    ≡ (fate_of (apply_seed outside 0).0, (apply_seed outside 0).1)
unfolding validate_for_subcommand validate_database load load_database get_env contains to_lower
    parse_int text_discrete ℕ_discrete
start_seed_unset_example = start_seed_unset outside twenty db_only [] 0 refl refl
