-- ===== src/Config/Validate.antt =====
-- Config.Validate and ValidateForSubcommand of config/config.go: the messages in order, each named
-- for what it says. No message is a nil error.
use inventory_service.Base.{
  GoString, codes, text_eq, Bool, true, false, not, ◌&&◌, ◌||◌, if◌then◌else◌, none, some, List, [],
  ◌∷◌, ◌++◌,
}
use inventory_service.Base.{parse_int}
use inventory_service.Config.Env.{to_lower, contains}
use inventory_service.Config.Load.{Config, default_service_name}

pub data Complaint : Type 0 where
  service_name_required port_required port_not_a_number env_unknown : Complaint
  grpc_port_required grpc_port_not_a_number : Complaint
  endpoint_required profiling_name_required : Complaint
  log_level_unknown log_format_unknown : Complaint
  db_host_required db_name_required db_user_required db_password_required : Complaint
  db_port_not_a_number ssl_mode_unknown : Complaint

abbrev pub complain : Bool → Complaint → List Complaint
complain true c = c ∷ []
complain false c = []

abbrev pub is_empty : GoString → Bool
is_empty s = text_eq s []

-- `_, err := strconv.Atoi(s); err != nil`
abbrev pub is_no_number : GoString → Bool
is_no_number s = elim (parse_int s) [ none ↦ true | some n ↦ false ]

abbrev pub valid_envs : List GoString
valid_envs =
    codes "development"
    ∷ codes "dev"
    ∷ codes "staging"
    ∷ codes "stage"
    ∷ codes "production"
    ∷ codes "prod"
    ∷ []

unfoldable pub validate_service : Config → List Complaint
validate_service c =
    complain (is_empty c.service.name || text_eq c.service.name default_service_name)
      service_name_required
    ++ (complain (is_empty c.service.port) port_required
        ++ (complain (is_no_number c.service.port) port_not_a_number
            ++ complain (not (contains valid_envs c.service.env)) env_unknown))

unfoldable pub validate_grpc : Config → List Complaint
validate_grpc c =
    complain (is_empty c.grpc.port) grpc_port_required
    ++ complain (is_no_number c.grpc.port) grpc_port_not_a_number

unfoldable pub validate_profiling : Config → List Complaint
validate_profiling c =
    if not c.profiling.enabled
    then []
    else (complain (is_empty c.profiling.endpoint) endpoint_required
        ++ complain
            (is_empty c.profiling.service_name
              || text_eq c.profiling.service_name default_service_name)
            profiling_name_required)

abbrev pub valid_log_levels : List GoString
valid_log_levels = codes "debug" ∷ codes "info" ∷ codes "warn" ∷ codes "error" ∷ []

abbrev pub valid_log_formats : List GoString
valid_log_formats = codes "json" ∷ codes "console" ∷ []

unfoldable pub validate_logging : Config → List Complaint
validate_logging c =
    complain (not (contains valid_log_levels (to_lower c.logging.level))) log_level_unknown
    ++ complain (not (contains valid_log_formats (to_lower c.logging.format))) log_format_unknown

abbrev pub valid_ssl_modes : List GoString
valid_ssl_modes =
    codes "disable"
    ∷ codes "prefer"
    ∷ codes "require"
    ∷ codes "verify-ca"
    ∷ codes "verify-full"
    ∷ []

unfoldable pub validate_database : Config → List Complaint
validate_database c =
    if is_empty c.database.host
    then []
    else (complain (is_empty c.database.name) db_name_required
        ++ (complain (is_empty c.database.user) db_user_required
            ++ (complain (is_empty c.database.password && is_empty c.database.password_file)
                  db_password_required
                ++ (complain (not (is_empty c.database.port) && is_no_number c.database.port)
                      db_port_not_a_number
                    ++ complain (not (contains valid_ssl_modes c.database.ssl_mode))
                        ssl_mode_unknown))))

-- Config.Validate
unfoldable pub validate_config : Config → List Complaint
validate_config c =
    validate_service c
    ++ (validate_grpc c ++ (validate_profiling c ++ (validate_logging c ++ validate_database c)))

-- Config.ValidateForSubcommand
unfoldable pub validate_for_subcommand : Config → List Complaint
validate_for_subcommand c =
    complain (is_empty c.database.host) db_host_required ++ validate_database c
