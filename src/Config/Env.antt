-- ===== src/Config/Env.antt =====
-- The helpers of config/config.go that read one variable. The environment is a function, as it is
-- after godotenv; an unset variable is the empty text. Texts are taken as ASCII, so that letters
-- fold byte by byte. time.ParseDuration is an argument: nanoseconds in an int64, or an error.
use inventory_service.Base.{
  ℕ, suc, ◌+◌, ◌/◌, GoString, codes, text_eq, ℤ, pos, negsuc, negate, leb_ℤ, ltb_ℤ, Bool, false,
  ◌&&◌, ◌||◌, if◌then◌else◌, leb, Option, none, some, List, [], ◌∷◌, map,
}
use inventory_service.Base.{parse_int}

abbrev pub Environment : Type 0
Environment = GoString → GoString

abbrev pub DurationParser : Type 0
DurationParser = GoString → Option ℤ

-- strings.ToLower
unfoldable pub lower : ℕ → ℕ
lower c = if leb 65 c && leb c 90 then c + 32 else c

unfoldable pub to_lower : GoString → GoString
unfolding lower
to_lower s = map lower s

-- strings.EqualFold
abbrev pub equal_fold : GoString → GoString → Bool
equal_fold s t = text_eq (to_lower s) (to_lower t)

-- contains
unfoldable pub contains : List GoString → GoString → Bool
contains [] item = false
contains (s ∷ ss) item = equal_fold s item || contains ss item

-- The fallback of an empty text.
abbrev pub or_default : GoString → GoString → GoString
or_default [] default = default
or_default (c ∷ cs) default = c ∷ cs

-- getEnv
unfoldable pub get_env : Environment → GoString → GoString → GoString
get_env env key default = or_default (env key) default

abbrev pub is_yes : GoString → Bool
is_yes value =
    text_eq value (codes "true") || text_eq value (codes "1") || text_eq value (codes "yes")

-- getEnvBool
unfoldable pub get_env_bool : Environment → GoString → Bool → Bool
get_env_bool env key default = elim (env key) [ [] ↦ default | c ∷ cs ↦ is_yes (to_lower (c ∷ cs)) ]

-- getEnvInt
unfoldable pub get_env_int : Environment → GoString → ℤ → ℤ
get_env_int env key default = elim (env key) [
  | [] ↦ default
  | c ∷ cs ↦ elim (parse_int (c ∷ cs)) [ none ↦ default | some n ↦ n ]
]

-- int(d.Seconds()): towards zero. The rounding of float64 matters only far above the bounds.
unfoldable pub whole_seconds : ℤ → ℤ
whole_seconds (pos n) = pos (n / 1000000000)
whole_seconds (negsuc n) = negate (pos (suc n / 1000000000))

-- `if seconds <= 0 || seconds > maxSeconds { return defaultValueSeconds }`
unfoldable pub bounded : ℤ → ℤ → ℤ → ℤ
bounded default most seconds =
    if leb_ℤ seconds (pos 0) || ltb_ℤ most seconds then default else seconds

-- The body of both readers of seconds.
unfoldable pub parsed_seconds : DurationParser → ℤ → ℤ → GoString → ℤ
unfolding whole_seconds bounded
parsed_seconds parse_duration default most [] = default
parsed_seconds parse_duration default most (c ∷ cs) = elim (parse_duration (c ∷ cs)) [
  | none ↦ default
  | some d ↦ bounded default most (whole_seconds d)
]

module _ (parse_duration : DurationParser) (env : Environment) (key : GoString) where
  -- getEnvDurationSecondsWithMax
  unfoldable pub get_env_duration_seconds_with_max : ℤ → ℤ → ℤ
  unfolding parsed_seconds
  get_env_duration_seconds_with_max default most =
      parsed_seconds parse_duration default most (env key)

  -- getEnvDurationSeconds
  unfoldable pub get_env_duration_seconds : ℤ → ℤ
  unfolding parsed_seconds
  get_env_duration_seconds default = parsed_seconds parse_duration default (pos 60) (env key)

  -- getEnvOptionalDuration; the empty text is no duration
  unfoldable pub get_env_optional_duration : ℤ
  get_env_optional_duration = elim (parse_duration (env key)) [
    | none ↦ pos 0
    | some d ↦ if ltb_ℤ d (pos 0) then pos 0 else d
  ]
