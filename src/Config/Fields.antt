-- ===== src/Config/Fields.antt =====
-- What each check of Validate asks of the variable behind it, once Load has put in the default.
use inventory_service.Base.{
  ℕ, GoString, codes, text_eq, text_discrete, ℕ_discrete, ◌≡◌, refl, Bool, true, false, not, ◌&&◌,
  ◌||◌, List, [], ◌∷◌, ◌++◌, arith, parse_int,
}
use inventory_service.Config.Env.{Environment, to_lower, contains, or_default}
use inventory_service.Config.Load.{default_service_name}
use inventory_service.Config.Validate.{
  Complaint, complain, is_empty, is_no_number, valid_envs, valid_log_levels, valid_log_formats,
  valid_ssl_modes,
}

abbrev pub is_nil : List Complaint → Bool
is_nil [] = true
is_nil (c ∷ cs) = false

pub is_nil-append : (cs ds : List Complaint) → is_nil (cs ++ ds) ≡ (is_nil cs && is_nil ds)
is_nil-append [] ds = refl
is_nil-append (c ∷ cs) ds = refl

pub is_nil-complain : (b : Bool) (c : Complaint) → is_nil (complain b c) ≡ not b
is_nil-complain true c = refl
is_nil-complain false c = refl

-- A variable is unset, or passes a test.
abbrev pub unset_or : (GoString → Bool) → GoString → Bool
unset_or test [] = true
unset_or test (c ∷ cs) = test (c ∷ cs)

abbrev pub is_number : GoString → Bool
is_number s = not (is_no_number s)

-- The environments that the service starts in, variable by variable.
abbrev pub starts_database : Environment → Bool
starts_database env =
    is_empty (env (codes "DB_HOST"))
    || (not (is_empty (env (codes "DB_NAME")))
        && (not (is_empty (env (codes "DB_USER")))
            && (not (
                  is_empty (env (codes "DB_PASSWORD")) && is_empty (env (codes "DB_PASSWORD_FILE")))
                && (unset_or is_number (env (codes "DB_PORT"))
                    && unset_or (contains valid_ssl_modes) (env (codes "DB_SSLMODE"))))))

abbrev pub starts : Environment → Bool
starts env =
    not (is_empty (env (codes "SERVICE_NAME")))
    && (not (text_eq (env (codes "SERVICE_NAME")) default_service_name)
        && (unset_or is_number (env (codes "PORT"))
            && (unset_or (contains valid_envs) (env (codes "ENV"))
                && (unset_or is_number (env (codes "GRPC_PORT"))
                    && (unset_or (λ s. contains valid_log_levels (to_lower s))
                          (env (codes "LOG_LEVEL"))
                        && (unset_or (λ s. contains valid_log_formats (to_lower s))
                              (env (codes "LOG_FORMAT"))
                            && starts_database env))))))

pub or_default-is_empty :
    (s : GoString) (c : ℕ) (cs : GoString) → is_empty (or_default s (c ∷ cs)) ≡ false
or_default-is_empty [] c cs = ground arith
or_default-is_empty (x ∷ xs) c cs = ground arith

unset_or_default :
    (test : GoString → Bool) (s default : GoString)
    → test default ≡ true
    → test (or_default s default) ≡ unset_or test s
unset_or_default test [] default h = h
unset_or_default test (c ∷ cs) default h = refl

pub or_default-nil : (s : GoString) → or_default s [] ≡ s
or_default-nil [] = refl
or_default-nil (c ∷ cs) = refl

pub named_lem :
    (s : GoString)
    → not (text_eq (or_default s default_service_name) default_service_name)
      ≡ (not (is_empty s) && not (text_eq s default_service_name))
named_lem [] = ground arith
named_lem (c ∷ cs) = ground arith

pub http_port_lem :
    (s : GoString) → not (is_no_number (or_default s (codes "8080"))) ≡ unset_or is_number s
unfolding parse_int
http_port_lem s = unset_or_default is_number s (codes "8080") refl

pub grpc_port_lem :
    (s : GoString) → not (is_no_number (or_default s (codes "9090"))) ≡ unset_or is_number s
unfolding parse_int
grpc_port_lem s = unset_or_default is_number s (codes "9090") refl

pub env_lem :
    (s : GoString)
    → contains valid_envs (or_default s (codes "development")) ≡ unset_or (contains valid_envs) s
unfolding contains to_lower text_discrete ℕ_discrete
env_lem s = unset_or_default (contains valid_envs) s (codes "development") refl

pub level_lem :
    (s : GoString)
    → contains valid_log_levels (to_lower (or_default s (codes "info")))
      ≡ unset_or (λ s. contains valid_log_levels (to_lower s)) s
unfolding contains to_lower text_discrete ℕ_discrete
level_lem s = unset_or_default (λ s. contains valid_log_levels (to_lower s)) s (codes "info") refl

pub format_lem :
    (s : GoString)
    → contains valid_log_formats (to_lower (or_default s (codes "json")))
      ≡ unset_or (λ s. contains valid_log_formats (to_lower s)) s
unfolding contains to_lower text_discrete ℕ_discrete
format_lem s = unset_or_default (λ s. contains valid_log_formats (to_lower s)) s (codes "json") refl

pub ssl_lem :
    (s : GoString)
    → contains valid_ssl_modes (or_default s (codes "disable"))
      ≡ unset_or (contains valid_ssl_modes) s
unfolding contains to_lower text_discrete ℕ_discrete
ssl_lem s = unset_or_default (contains valid_ssl_modes) s (codes "disable") refl

pub db_port_lem :
    (s : GoString)
    → not
        (not (is_empty (or_default s (codes "5432"))) && is_no_number (or_default s (codes "5432")))
      ≡ unset_or is_number s
unfolding parse_int text_discrete ℕ_discrete
db_port_lem [] = refl
db_port_lem (c ∷ cs) = refl

pub not-not : (b : Bool) → not (not b) ≡ b
not-not true = refl
not-not false = refl
