-- ===== src/Config/Servable.antt =====
-- What an environment must set for the service to start.
use inventory_service.Base.{
  GoString, codes, text_eq, text_discrete, ℕ_discrete, ◌≡◌, ◌↔◌, refl, ap, sym, ◌∙◌, Bool, true,
  false, not, ◌&&◌, ◌||◌, Bool-cases, List, [], ◌∷◌, arith, inl, inr,
}
use inventory_service.Config.Env.{Environment, DurationParser, to_lower, contains, get_env}
use inventory_service.Config.Load.{Config, load, load_database, default_service_name}
use inventory_service.Config.Validate.{
  Complaint, is_empty, valid_envs, valid_log_levels, valid_log_formats, validate_service,
  validate_grpc, validate_profiling, validate_logging, validate_database, validate_config,
  validate_for_subcommand,
}
use inventory_service.Config.Fields.{
  is_nil, is_number, unset_or, starts_database, starts, is_nil-append, is_nil-complain,
  or_default-is_empty, or_default-nil, named_lem, http_port_lem, grpc_port_lem, env_lem, level_lem,
  format_lem, ssl_lem, db_port_lem, not-not,
}

nil_of_is_nil : (cs : List Complaint) → is_nil cs ≡ true → cs ≡ []
nil_of_is_nil [] h = refl
nil_of_is_nil (c ∷ cs) h = cc

-- The profiling check repeats that of the name.
absorb :
    (a b port mode rpc on level format base : Bool)
    → (a && b && (port && mode) && (rpc && ((not on || (a && b)) && (level && format && base))))
      ≡ (a && (b && (port && (mode && (rpc && (level && (format && base)))))))
absorb true true port mode rpc on level format base = ground arith
absorb true false port mode rpc on level format base = refl
absorb false b port mode rpc on level format base = refl

module _ (parse : DurationParser) (env : Environment) where
  abbrev loaded : Config
  loaded = load parse env

  service_lem : is_nil (validate_service loaded) ≡ (
      (not (is_empty (env (codes "SERVICE_NAME")))
        && not (text_eq (env (codes "SERVICE_NAME")) default_service_name))
      && (unset_or is_number (env (codes "PORT"))
          && unset_or (contains valid_envs) (env (codes "ENV"))))
  unfolding validate_service load get_env
  service_lem = simp (
    is_nil-append, is_nil-complain, or_default-is_empty, named_lem, http_port_lem, env_lem, not-not,
  )

  grpc_lem : is_nil (validate_grpc loaded) ≡ unset_or is_number (env (codes "GRPC_PORT"))
  unfolding validate_grpc load get_env
  grpc_lem = simp (is_nil-append, is_nil-complain, or_default-is_empty, grpc_port_lem)

  profiling_lem : is_nil (validate_profiling loaded) ≡ (
      not loaded.profiling.enabled
      || (not (is_empty (env (codes "SERVICE_NAME")))
          && not (text_eq (env (codes "SERVICE_NAME")) default_service_name)))
  unfolding validate_profiling load get_env
  profiling_lem = elim (Bool-cases loaded.profiling.enabled) [
    | inl t ↦ rw t (simp (is_nil-append, is_nil-complain, or_default-is_empty, named_lem))
    | inr t ↦ rw t
  ]

  logging_lem : is_nil (validate_logging loaded) ≡ (
      unset_or (λ s. contains valid_log_levels (to_lower s)) (env (codes "LOG_LEVEL"))
      && unset_or (λ s. contains valid_log_formats (to_lower s)) (env (codes "LOG_FORMAT")))
  unfolding validate_logging load get_env
  logging_lem = simp (is_nil-append, is_nil-complain, level_lem, format_lem, not-not)

  database_lem : is_nil (validate_database loaded) ≡ starts_database env
  unfolding validate_database load load_database get_env
  database_lem = elim (Bool-cases (is_empty (env (codes "DB_HOST")))) [
    | inl t ↦ rw (or_default-nil (env (codes "DB_HOST")), t)
    | inr t ↦
        rw (or_default-nil (env (codes "DB_HOST")), t)
          (simp (is_nil-append, is_nil-complain, or_default-nil, db_port_lem, ssl_lem, not-not))
  ]

  whole_lem : is_nil (validate_config loaded) ≡ starts env
  unfolding validate_config
  whole_lem =
      simp (is_nil-append, service_lem, grpc_lem, profiling_lem, logging_lem, database_lem)
        (absorb (not (is_empty (env (codes "SERVICE_NAME"))))
          (not (text_eq (env (codes "SERVICE_NAME")) default_service_name))
          (unset_or is_number (env (codes "PORT")))
          (unset_or (contains valid_envs) (env (codes "ENV")))
          (unset_or is_number (env (codes "GRPC_PORT"))) loaded.profiling.enabled
          (unset_or (λ s. contains valid_log_levels (to_lower s)) (env (codes "LOG_LEVEL")))
          (unset_or (λ s. contains valid_log_formats (to_lower s)) (env (codes "LOG_FORMAT")))
          (starts_database env))

  -- Load and Validate accept an environment exactly when it sets SERVICE_NAME to something other than
  -- "unknown"; leaves PORT, GRPC_PORT, ENV, LOG_LEVEL and LOG_FORMAT unset or sets each to a number or
  -- to a known word; and either leaves DB_HOST unset, or sets DB_NAME, DB_USER and one of DB_PASSWORD
  -- and DB_PASSWORD_FILE, and leaves DB_PORT and DB_SSLMODE unset or sets them to a number and a known
  -- mode. The profiling variables decide nothing.
  pub validate_config_exact : (validate_config (load parse env) ≡ []) ↔ (starts env ≡ true)
  validate_config_exact = (
    (λ e. sym whole_lem ∙ ap is_nil e),
    (λ e. nil_of_is_nil (validate_config loaded) (whole_lem ∙ e)),
  )

-- Two environments agree on the variables of the database.
abbrev pub starts_with_db : GoString → Bool
starts_with_db (x ∷ y ∷ z ∷ cs) = text_eq (x ∷ y ∷ z ∷ []) (codes "DB_")
starts_with_db cs = false

abbrev pub AgreeOnDb : Environment → Environment → Type 0
AgreeOnDb env env' = (key : GoString) → starts_with_db key ≡ true → env key ≡ env' key

-- What a subcommand asks of its configuration depends on no variable but those that begin with DB_:
-- two environments that agree on these are both accepted, or refused for the same reasons, whatever
-- else is set or left out.
pub validate_for_subcommand_local :
    (parse parse' : DurationParser) (env env' : Environment)
    → AgreeOnDb env env'
    → validate_for_subcommand (load parse env) ≡ validate_for_subcommand (load parse' env')
unfolding validate_for_subcommand validate_database load load_database get_env text_discrete
    ℕ_discrete
validate_for_subcommand_local parse parse' env env' same = rw (
  same (codes "DB_HOST") refl,
  same (codes "DB_NAME") refl,
  same (codes "DB_USER") refl,
  same (codes "DB_PASSWORD") refl,
  same (codes "DB_PASSWORD_FILE") refl,
  same (codes "DB_PORT") refl,
  same (codes "DB_SSLMODE") refl,
)
