-- ===== src/Process/Time.antt =====
-- The shutdown comes to an end within its limits, and reports how it went.
use inventory_service.Base.{
  ℕ, ◌+◌, ◌*◌, ◌≤◌, ◌≤ℤ◌, ◌≡◌, refl, ap, ℤ, ◌-ℤ◌, pos, negsuc, pos_part, Bool, not, ◌&&◌,
  if◌then◌else◌, leb, List, [], ◌∷◌, ◌++◌, arith,
}
use inventory_service.Config.Env.{Environment, DurationParser}
use inventory_service.Config.Load.{Config, load}
use inventory_service.Config.Bounds.{load_bounds}
use inventory_service.Process.Stop.{
  seconds, get_shutdown_timeout_duration, get_readiness_drain_delay_duration, Work, ProcessOutcome,
  outcome_graceful, outcome_error, Event, process_stopped, ◌then◌, under, drain, stop_http,
  stop_grpc, shutdown_telemetry, run_graceful_shutdown,
}

under-le : (limit need : ℕ) → (under limit need).0 ≤ limit
unfolding under
under-le limit need = ground arith

seconds-le : (s : ℤ) (n : ℕ) → s ≤ℤ pos n → pos_part (seconds s) ≤ n * 1000000000
unfolding seconds ◌-ℤ◌
seconds-le (pos m) n h = omega arith
seconds-le (negsuc m) n h = ground arith

drain-le : (c : Config) → (drain c).0 ≤ pos_part (get_readiness_drain_delay_duration c)
unfolding drain
drain-le c = ground arith

stop_http-le :
    (c : Config) (w : Work) → (stop_http c w).0.0 ≤ pos_part (get_shutdown_timeout_duration c)
unfolding stop_http
stop_http-le c w = ground (arith, under-le (pos_part (get_shutdown_timeout_duration c)) w.http)

stop_grpc-le : (w : Work) → (stop_grpc w).0.0 ≤ 10000000000 + w.stop
unfolding stop_grpc
stop_grpc-le w = ground (arith, under-le 10000000000 w.grpc)

shutdown_telemetry-le : (w : Work) → (shutdown_telemetry w).0 ≤ 5000000000
unfolding shutdown_telemetry under
shutdown_telemetry-le w = ground arith

-- The outcomes that process.stopped is reported with.
abbrev pub reported : List Event → List ProcessOutcome
reported [] = []
reported (process_stopped o ∷ es) = o ∷ reported es
reported (_ ∷ es) = reported es

-- Both servers come to their end within their limits.
abbrev pub is_graceful : Config → Work → Bool
is_graceful c w =
    (leb w.http (pos_part (get_shutdown_timeout_duration c)) && not w.http_fails)
    && leb w.grpc 10000000000

run_graceful_shutdown-le :
    (c : Config) (w : Work)
    → (run_graceful_shutdown c w).0
      ≤ pos_part (get_readiness_drain_delay_duration c)
        + pos_part (get_shutdown_timeout_duration c)
        + 15000000000
        + w.stop
        + w.pool
unfolding run_graceful_shutdown
run_graceful_shutdown-le c w =
    omega (arith, drain-le c, stop_http-le c w, stop_grpc-le w, shutdown_telemetry-le w)

reported-append : (es fs : List Event) → reported (es ++ fs) ≡ reported es ++ reported fs
reported-append [] fs = refl
reported-append (process_stopped o ∷ es) fs = ap (◌∷◌ o) (reported-append es fs)
reported-append (_ ∷ es) fs = reported-append es fs

drain-reported : (c : Config) → reported (drain c).1 ≡ []
unfolding drain
drain-reported c = ground arith

stop_http-reported :
    (c : Config) (w : Work)
    → (reported (stop_http c w).0.1 ≡ [])
      × ((stop_http c w).1
          ≡ (leb w.http (pos_part (get_shutdown_timeout_duration c)) && not w.http_fails))
unfolding stop_http under
stop_http-reported c w = ground arith

stop_grpc-reported :
    (w : Work) → (reported (stop_grpc w).0.1 ≡ []) × ((stop_grpc w).1 ≡ leb w.grpc 10000000000)
unfolding stop_grpc under
stop_grpc-reported w = ground arith

shutdown_telemetry-reported : (w : Work) → reported (shutdown_telemetry w).1 ≡ []
unfolding shutdown_telemetry under
shutdown_telemetry-reported w = ground arith

run_graceful_shutdown-reported :
    (c : Config) (w : Work)
    → reported (run_graceful_shutdown c w).1
      ≡ (if is_graceful c w then outcome_graceful else outcome_error) ∷ []
unfolding run_graceful_shutdown
run_graceful_shutdown-reported c w =
    let (h, hb) = stop_http-reported c w in
    let (g, gb) = stop_grpc-reported w in
    simp (reported-append, drain-reported, h, hb, g, gb, shutdown_telemetry-reported)

-- After the signal the shutdown ends within 30 seconds of drain, 60 of the HTTP server, 10 of the gRPC
-- server and 5 of telemetry, and what a forced stop and the pool need, for every configuration that
-- Load gives and however long the servers and telemetry would need. It reports process.stopped once,
-- as graceful exactly when the HTTP server stops without an error within its timeout and the gRPC
-- server within ten seconds.
pub run_graceful_shutdown_ends :
    (parse : DurationParser) (env : Environment) (w : Work)
    → ((run_graceful_shutdown (load parse env) w).0 ≤ 105000000000 + w.stop + w.pool)
      × (reported (run_graceful_shutdown (load parse env) w).1
          ≡ (if is_graceful (load parse env) w then outcome_graceful else outcome_error) ∷ [])
unfolding get_readiness_drain_delay_duration get_shutdown_timeout_duration
run_graceful_shutdown_ends parse env w =
    let (_, t, _, d) = load_bounds parse env in
    (
      omega (
        arith,
        run_graceful_shutdown-le (load parse env) w,
        seconds-le (load parse env).shutdown_timeout 60 t,
        seconds-le (load parse env).readiness_drain_delay 30 d,
      ),
      run_graceful_shutdown-reported (load parse env) w,
    )
