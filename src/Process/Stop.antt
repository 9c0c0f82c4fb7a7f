-- ===== src/Process/Stop.antt =====
-- The readiness probe and runGracefulShutdown of cmd/main.go, from the signal on, with the time that
-- passes in nanoseconds. What the servers, the pool and OpenTelemetry would need is an argument.
use inventory_service.Base.{
  ℕ, zero, suc, ◌+◌, ◌*◌, GoString, codes, ℤ, pos, negsuc, negate, pos_part, Bool, true, false,
  ◌&&◌, if◌then◌else◌, leb, Option, none, some, List, [], ◌∷◌, ◌++◌,
}
use inventory_service.Config.Load.{Config}

-- The answer of /ready: whether the shutdown has begun, and whether the database answers a ping
-- within a second.
unfoldable pub ready : Bool → Bool → ℕ × GoString
ready true ping = (503, codes "shutting_down")
ready false false = (503, codes "db_unavailable")
ready false true = (200, codes "ok")

-- `time.Duration(s) * time.Second`; the bounds of Load keep it within int64.
unfoldable pub seconds : ℤ → ℤ
seconds (pos n) = pos (n * 1000000000)
seconds (negsuc n) = negate (pos (suc n * 1000000000))

-- GetShutdownTimeoutDuration
unfoldable pub get_shutdown_timeout_duration : Config → ℤ
unfolding seconds
get_shutdown_timeout_duration c = seconds c.shutdown_timeout

-- GetReadinessDrainDelayDuration
unfoldable pub get_readiness_drain_delay_duration : Config → ℤ
unfolding seconds
get_readiness_drain_delay_duration c = seconds c.readiness_drain_delay

-- How long each part would take by itself. `http_fails` and `telemetry_fails` are errors other than
-- a passed deadline; `stop` is what GracefulStop still needs once Stop was called; no telemetry is
-- an OpenTelemetry that was not set up.
pub record Work : Type 0 where
  pub http : ℕ
  pub http_fails : Bool
  pub grpc : ℕ
  pub stop : ℕ
  pub pool : ℕ
  pub telemetry : Option ℕ
  pub telemetry_fails : Bool

pub data ProcessOutcome : Type 0 where
  outcome_graceful outcome_error : ProcessOutcome

pub data Event : Type 0 where
  readiness_fails health_not_serving : Event
  drain_waited http_stopped http_stop_failed grpc_stopped grpc_forced pool_closed : Event
  process_stopped : ProcessOutcome → Event
  telemetry_stopped telemetry_stop_failed : Event

-- A step of the shutdown: the time that it takes, and what it shows.
abbrev pub Step : Type 0
Step = ℕ × List Event

infixl 5 ◌then◌
abbrev pub ◌then◌ : Step → Step → Step
(t, es) then (u, fs) = (t + u, es ++ fs)

-- Work under a deadline: the time until it is done or the deadline passes, and which it was. Work
-- that is done at the deadline counts as done.
unfoldable pub under : ℕ → ℕ → ℕ × Bool
under limit need = if leb need limit then (need, true) else (limit, false)

-- time.Sleep, where there is a delay
unfoldable pub drain : Config → Step
unfolding get_readiness_drain_delay_duration
drain c = elim (pos_part (get_readiness_drain_delay_duration c)) [
  | zero ↦ (0, [])
  | suc n ↦ (suc n, drain_waited ∷ [])
]

-- srv.Shutdown under the timeout
unfoldable pub stop_http : Config → Work → Step × Bool
unfolding under get_shutdown_timeout_duration
stop_http c w =
    let (t, done) = under (pos_part (get_shutdown_timeout_duration c)) w.http in
    if done && (if w.http_fails then false else true)
    then ((t, http_stopped ∷ []), true)
    else ((t, http_stop_failed ∷ []), false)

-- GracefulStop, and Stop after ten seconds
unfoldable pub stop_grpc : Work → Step × Bool
unfolding under
stop_grpc w =
    let (t, done) = under 10000000000 w.grpc in
    if done then ((t, grpc_stopped ∷ []), true) else ((t + w.stop, grpc_forced ∷ []), false)

-- shutdownTelemetry under its own five seconds
unfoldable pub shutdown_telemetry : Work → Step
unfolding under
shutdown_telemetry w = elim w.telemetry [
  | none ↦ (0, [])
  | some need ↦
      let (t, done) = under 5000000000 need in
      if done && (if w.telemetry_fails then false else true)
      then (t, telemetry_stopped ∷ [])
      else (t, telemetry_stop_failed ∷ [])
]

-- runGracefulShutdown
unfoldable pub run_graceful_shutdown : Config → Work → Step
unfolding drain stop_http stop_grpc shutdown_telemetry
run_graceful_shutdown c w =
    let http = stop_http c w in
    let grpc = stop_grpc w in
    let outcome = if http.1 && grpc.1 then outcome_graceful else outcome_error in
    (0, readiness_fails ∷ health_not_serving ∷ [])
    then drain c
    then http.0
    then grpc.0
    then (w.pool, pool_closed ∷ process_stopped outcome ∷ [])
    then shutdown_telemetry w
