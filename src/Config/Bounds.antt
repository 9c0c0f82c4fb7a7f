-- ===== src/Config/Bounds.antt =====
-- What Load guarantees of the durations.
use inventory_service.Base.{GoString, codes, ℤ, pos, ◌≤ℤ◌, Option-cases, [], ◌∷◌, arith, inl, inr}
use inventory_service.Config.Env.{
  Environment, DurationParser, bounded, whole_seconds, parsed_seconds, get_env_duration_seconds,
  get_env_duration_seconds_with_max,
}
use inventory_service.Config.Load.{load}

bounded_lem :
    (default most seconds : ℤ)
    → pos 1 ≤ℤ default
    → default ≤ℤ most
    → (pos 1 ≤ℤ bounded default most seconds) × (bounded default most seconds ≤ℤ most)
unfolding bounded
bounded_lem default most seconds h k = ground arith

parsed_seconds_lem :
    (parse : DurationParser) (default most : ℤ) (value : GoString)
    → pos 1 ≤ℤ default
    → default ≤ℤ most
    → (pos 1 ≤ℤ parsed_seconds parse default most value)
      × (parsed_seconds parse default most value ≤ℤ most)
unfolding parsed_seconds
parsed_seconds_lem parse default most [] h k = (h, k)
parsed_seconds_lem parse default most (c ∷ cs) h k = elim (Option-cases (parse (c ∷ cs))) [
  | inl e ↦ rw (e, parsed_seconds) (h, k)
  | inr (d, e) ↦ rw (e, parsed_seconds) (bounded_lem default most (whole_seconds d) h k)
]

-- Whatever the environment holds, and whatever time.ParseDuration makes of it, Load gives a shutdown
-- timeout of 1 to 60 seconds and a drain delay of 1 to 30 seconds.
pub load_bounds :
    (parse : DurationParser) (env : Environment)
    → (pos 1 ≤ℤ (load parse env).shutdown_timeout)
      × ((load parse env).shutdown_timeout ≤ℤ pos 60)
      × (pos 1 ≤ℤ (load parse env).readiness_drain_delay)
      × ((load parse env).readiness_drain_delay ≤ℤ pos 30)
unfolding load get_env_duration_seconds get_env_duration_seconds_with_max
load_bounds parse env =
    let (a, b) =
      parsed_seconds_lem parse (pos 10) (pos 60) (env (codes "SHUTDOWN_TIMEOUT")) (omega arith)
        (omega arith) in
    let (c, d) =
      parsed_seconds_lem parse (pos 5) (pos 30) (env (codes "READINESS_DRAIN_DELAY")) (omega arith)
        (omega arith) in
    (a, b, c, d)
