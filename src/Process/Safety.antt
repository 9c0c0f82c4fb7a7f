-- ===== src/Process/Safety.antt =====
-- What a start of the process can do to the database, and when it serves.
use inventory_service.Base.{
  GoString, codes, text_eq, ◌≡◌, refl, ◌⊎◌, Bool, true, false, ◌||◌, Option, none, some, List, [],
  ◌∷◌,
}
use inventory_service.Domain.Errors.{Error}
use inventory_service.Config.Load.{Config, is_development}
use inventory_service.Config.Validate.{Complaint, validate_config, validate_for_subcommand}
use inventory_service.Process.Start.{
  Externals, Fate, panicked, fatal, returned, serving, finished, else_serve, apply_seed,
}

-- A subcommand ends the process.
abbrev pub fate_of : Option Error → Fate
fate_of none = returned
fate_of (some e) = fatal

-- The first argument is a subcommand that runSubcommand knows.
abbrev pub is_subcommand : List GoString → Bool
is_subcommand [] = false
is_subcommand (cmd ∷ args) =
    text_eq cmd (codes "migrate") || text_eq cmd (codes "seed") || text_eq cmd (codes "backfill")

module _ {S : Type 0} (x : Externals S) (cfg : Config) (s : S) where
  -- The ways in which main can go.
  pub data Started : List GoString → Fate × S → Type 0 where
    -- With an argument, a configuration that ValidateForSubcommand complains about is the end.
    unfit :
        (cmd : GoString) (args : List GoString) (c : Complaint) (cs : List Complaint)
        → validate_for_subcommand cfg ≡ c ∷ cs
        → Started (cmd ∷ args) (panicked (c ∷ cs), s)
    -- The migrations have run, and the process ends.
    migrated :
        (args : List GoString) (o : Option Error) (s' : S)
        → validate_for_subcommand cfg ≡ []
        → x.migrate s ≡ (o, s')
        → Started (codes "migrate" ∷ args) (fate_of o, s')
    -- The demo data was applied, in a development environment, and the process ends.
    seeded :
        (args : List GoString) (o : Option Error) (s' : S)
        → validate_for_subcommand cfg ≡ []
        → is_development cfg ≡ true
        → apply_seed x s ≡ (o, s')
        → Started (codes "seed" ∷ args) (fate_of o, s')
    -- No demo data in any other environment.
    seed_refused :
        (args : List GoString)
        → validate_for_subcommand cfg ≡ []
        → is_development cfg ≡ false
        → Started (codes "seed" ∷ args) (fatal, s)
    -- There is nothing to backfill.
    not_backfilled :
        (args : List GoString)
        → validate_for_subcommand cfg ≡ []
        → Started (codes "backfill" ∷ args) (fatal, s)
    -- Without a subcommand, a configuration that Validate complains about is the end.
    misconfigured :
        (args : List GoString) (c : Complaint) (cs : List Complaint)
        → is_subcommand args ≡ false
        → validate_config cfg ≡ c ∷ cs
        → Started args (panicked (c ∷ cs), s)
    -- Without a subcommand, what the servers need is missing.
    unable :
        (args : List GoString) (e : Error)
        → is_subcommand args ≡ false
        → validate_config cfg ≡ []
        → (x.connect ≡ some e) ⊎ ((x.listen ≡ some e) ⊎ (x.new_verifier ≡ some e))
        → Started args (fatal, s)
    -- Without a subcommand, the servers run.
    served :
        (args : List GoString)
        → is_subcommand args ≡ false
        → validate_config cfg ≡ []
        → (x.connect ≡ none) × (x.listen ≡ none) × (x.new_verifier ≡ none)
        → Started args (serving, s)

  pub finished_lem : (r : Option Error × S) → else_serve x cfg (finished x r) ≡ (fate_of r.0, r.1)
  finished_lem (none, s') = refl
  finished_lem (some e, s') = refl
