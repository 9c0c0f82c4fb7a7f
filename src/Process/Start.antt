-- ===== src/Process/Start.antt =====
-- main, runSubcommand and applySeed of cmd/main.go, up to the point where the servers run. Postgres,
-- the migration library, the embedded files and the token verifier are arguments (`Externals`), over
-- the contents of the database. Logging, OpenTelemetry and profiling decide nothing: their failures
-- are logged only. That the database connection closes at exit is left out.
use inventory_service.Base.{
  ◌-◌, GoString, codes, text_eq, text_ltb, Bool, not, ◌&&◌, if◌then◌else◌, leb, length, keep, drop,
  sort, Option, none, some, List, [], ◌∷◌, ◌++◌,
}
use inventory_service.Domain.Errors.{Error, Result, ok, err}
use inventory_service.Config.Load.{Config, is_development}
use inventory_service.Config.Validate.{Complaint, validate_config, validate_for_subcommand}

pub record Externals (S : Type 0) : Type 0 where
  -- migratex.Run, which may fail part of the way
  pub migrate : S → Option Error × S
  -- pgxpool.ParseConfig and pgxpool.NewWithConfig of the seed's pool
  pub parse_dsn : Option Error
  pub open_pool : Option Error
  -- fs.ReadDir, by the names, and fs.ReadFile of the seed's files
  pub read_dir : Result (List GoString)
  pub read_file : GoString → Result GoString
  -- pool.Exec of a whole file
  pub exec : GoString → S → Result S
  -- database.Connect, the gRPC listener, and authmw.NewVerifier
  pub connect : Option Error
  pub listen : Option Error
  pub new_verifier : Option Error

-- How main goes on or ends. `fatal` exits with 1.
pub data Fate : Type 0 where
  panicked : List Complaint → Fate
  fatal : Fate
  returned : Fate
  serving : Fate

-- strings.HasSuffix
unfoldable pub has_suffix : GoString → GoString → Bool
has_suffix s suffix =
    leb (length suffix) (length s) && text_eq (drop (length s - length suffix) s) suffix

module _ {S : Type 0} (x : Externals S) where
  -- The loop over the files: it stops at the first that cannot be read or applied.
  unfoldable pub apply_files : List GoString → S → Option Error × S
  apply_files [] s = (none, s)
  apply_files (name ∷ names) s = elim (x.read_file (codes "sql/" ++ name)) [
    | err e ↦ (some e, s)
    | ok text ↦ elim (x.exec text s) [ err e ↦ (some e, s) | ok s' ↦ apply_files names s' ]
  ]

  -- The files in name order.
  unfoldable pub seed_files : List GoString → List GoString
  unfolding has_suffix
  seed_files names = sort text_ltb (keep (λ name. has_suffix name (codes ".up.sql")) names)

  -- applySeed
  unfoldable pub apply_seed : S → Option Error × S
  unfolding apply_files seed_files
  apply_seed s = elim x.parse_dsn [
    | some e ↦ (some e, s)
    | none ↦ elim x.open_pool [
      | some e ↦ (some e, s)
      | none ↦ elim x.read_dir [ err e ↦ (some e, s) | ok names ↦ apply_files (seed_files names) s ]
    ]
  ]

  -- The end of a subcommand that has run.
  abbrev pub finished : Option Error × S → Option Fate × S
  finished (none, s) = (some returned, s)
  finished (some e, s) = (some fatal, s)

  -- runSubcommand; `none` is `false`, a command that it does not know
  unfoldable pub run_subcommand : GoString → Config → S → Option Fate × S
  unfolding apply_seed
  run_subcommand cmd cfg s =
      if text_eq cmd (codes "migrate")
      then finished (x.migrate s)
      else if text_eq cmd (codes "seed")
      then (if not (is_development cfg) then (some fatal, s) else finished (apply_seed s))
      else if text_eq cmd (codes "backfill")
      then (some fatal, s)
      else (none, s)

  -- `if err != nil { logger.Fatal(…) }`
  abbrev pub or_fatal : Option Error → Fate → Fate
  or_fatal none next = next
  or_fatal (some e) next = fatal

  -- main after the subcommands
  unfoldable pub serve_process : Config → Fate
  serve_process cfg = elim (validate_config cfg) [
    | c ∷ cs ↦ panicked (c ∷ cs)
    | [] ↦ or_fatal x.connect (or_fatal x.listen (or_fatal x.new_verifier serving))
  ]

  -- A subcommand that was not known falls through.
  abbrev pub else_serve : Config → Option Fate × S → Fate × S
  else_serve cfg (some fate, s) = (fate, s)
  else_serve cfg (none, s) = (serve_process cfg, s)

  -- main; the arguments are os.Args[1:]
  unfoldable pub start : List GoString → Config → S → Fate × S
  unfolding run_subcommand serve_process
  start [] cfg s = (serve_process cfg, s)
  start (cmd ∷ rest) cfg s = elim (validate_for_subcommand cfg) [
    | c ∷ cs ↦ (panicked (c ∷ cs), s)
    | [] ↦ else_serve cfg (run_subcommand cmd cfg s)
  ]
