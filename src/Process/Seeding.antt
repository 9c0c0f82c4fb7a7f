-- ===== src/Process/Seeding.antt =====
-- Seeding where ENV is not set: Load puts in "development".
use inventory_service.Base.{GoString, codes, text_discrete, ℕ_discrete, ◌≡◌, true, List, [], ◌∷◌}
use inventory_service.Config.Env.{Environment, DurationParser, get_env, to_lower}
use inventory_service.Config.Load.{load, is_development}
use inventory_service.Config.Validate.{validate_for_subcommand}
use inventory_service.Process.Start.{Externals, start, run_subcommand, apply_seed}
use inventory_service.Process.Safety.{fate_of, finished_lem}

is_development_unset :
    (parse : DurationParser) (env : Environment)
    → env (codes "ENV") ≡ []
    → is_development (load parse env) ≡ true
unfolding is_development load get_env to_lower text_discrete ℕ_discrete
is_development_unset parse env h = rw h

-- Where ENV is not set, `seed` is not refused: with a configuration that ValidateForSubcommand
-- accepts, the demo data is applied to the database, whatever database that is.
pub start_seed_unset :
    {S : Type 0} (x : Externals S) (parse : DurationParser) (env : Environment)
    (args : List GoString) (s : S)
    → env (codes "ENV") ≡ []
    → validate_for_subcommand (load parse env) ≡ []
    → start x (codes "seed" ∷ args) (load parse env) s
      ≡ (fate_of (apply_seed x s).0, (apply_seed x s).1)
unfolding start run_subcommand text_discrete ℕ_discrete
start_seed_unset x parse env args s h v =
    rw (v, start, is_development_unset parse env h)
      (finished_lem x (load parse env) s (apply_seed x s))
