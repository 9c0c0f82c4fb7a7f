-- ===== src/Config/Load.antt =====
-- The Config of config/config.go, and Load.
use inventory_service.Base.{GoString, codes, ℤ, pos, Bool, true, [], ◌||◌, text_eq}
use inventory_service.Config.Env.{
  Environment, DurationParser, to_lower, get_env, get_env_bool, get_env_int,
  get_env_duration_seconds, get_env_duration_seconds_with_max, get_env_optional_duration,
}

pub record ServiceConfig : Type 0 where
  pub name : GoString
  pub port : GoString
  pub version : GoString
  pub env : GoString

pub record GrpcConfig : Type 0 where
  pub port : GoString

pub record ProfilingConfig : Type 0 where
  pub enabled : Bool
  pub endpoint : GoString
  pub service_name : GoString

pub record LoggingConfig : Type 0 where
  pub level : GoString
  pub format : GoString

-- Durations are nanoseconds.
pub record DatabaseConfig : Type 0 where
  pub host : GoString
  pub port : GoString
  pub name : GoString
  pub user : GoString
  pub password : GoString
  pub password_file : GoString
  pub ssl_mode : GoString
  pub max_connections : ℤ
  pub max_conn_lifetime : ℤ
  pub health_check_period : ℤ
  pub pool_mode : GoString
  pub pooler_type : GoString

pub record Config : Type 0 where
  pub service : ServiceConfig
  pub grpc : GrpcConfig
  pub profiling : ProfilingConfig
  pub logging : LoggingConfig
  pub database : DatabaseConfig
  pub shutdown_timeout : ℤ
  pub readiness_drain_delay : ℤ
  pub oidc_staff_issuer : GoString
  pub oidc_audience : GoString
  pub oidc_staff_jwks_url : GoString

abbrev pub default_service_name : GoString
default_service_name = codes "unknown"

module _ (parse_duration : DurationParser) (env : Environment) where
  unfoldable pub load_database : DatabaseConfig
  load_database = record {
    host = get_env env (codes "DB_HOST") [];
    port = get_env env (codes "DB_PORT") (codes "5432");
    name = get_env env (codes "DB_NAME") [];
    user = get_env env (codes "DB_USER") [];
    password = get_env env (codes "DB_PASSWORD") [];
    password_file = get_env env (codes "DB_PASSWORD_FILE") [];
    ssl_mode = get_env env (codes "DB_SSLMODE") (codes "disable");
    max_connections = get_env_int env (codes "DB_POOL_MAX_CONNECTIONS") (pos 25);
    max_conn_lifetime =
        get_env_optional_duration parse_duration env (codes "DB_POOL_MAX_CONN_LIFETIME");
    health_check_period =
        get_env_optional_duration parse_duration env (codes "DB_POOL_HEALTH_CHECK_PERIOD");
    pool_mode = get_env env (codes "DB_POOL_MODE") [];
    pooler_type = get_env env (codes "DB_POOLER_TYPE") [];
  }

  unfoldable pub load : Config
  unfolding load_database
  load = record {
    service = record {
      name = get_env env (codes "SERVICE_NAME") default_service_name;
      port = get_env env (codes "PORT") (codes "8080");
      version = get_env env (codes "VERSION") (codes "dev");
      env = get_env env (codes "ENV") (codes "development");
    };
    grpc = record { port = get_env env (codes "GRPC_PORT") (codes "9090") };
    profiling = record {
      enabled = get_env_bool env (codes "PROFILING_ENABLED") true;
      endpoint =
          get_env env (codes "PYROSCOPE_ENDPOINT")
            (codes "http://pyroscope.monitoring.svc.cluster.local:4040");
      service_name = get_env env (codes "SERVICE_NAME") default_service_name;
    };
    logging = record {
      level = get_env env (codes "LOG_LEVEL") (codes "info");
      format = get_env env (codes "LOG_FORMAT") (codes "json");
    };
    database = load_database;
    shutdown_timeout =
        get_env_duration_seconds parse_duration env (codes "SHUTDOWN_TIMEOUT") (pos 10);
    readiness_drain_delay =
        get_env_duration_seconds_with_max parse_duration env (codes "READINESS_DRAIN_DELAY") (pos 5)
          (pos 30);
    oidc_staff_issuer =
        get_env env (codes "OIDC_STAFF_ISSUER") (codes "https://id.duynh.me/realms/duynhlab-staff");
    oidc_audience = get_env env (codes "OIDC_AUDIENCE") (codes "duynhlab-platform");
    oidc_staff_jwks_url = get_env env (codes "OIDC_STAFF_JWKS_URL") [];
  }

-- Config.IsDevelopment
unfoldable pub is_development : Config → Bool
unfolding to_lower
is_development c =
    let env = to_lower c.service.env in
    text_eq env (codes "development") || text_eq env (codes "dev")

-- Config.IsProduction
unfoldable pub is_production : Config → Bool
unfolding to_lower
is_production c =
    let env = to_lower c.service.env in
    text_eq env (codes "production") || text_eq env (codes "prod")
