-- ===== src/Telemetry/Services.antt =====
-- The services with what they report: ReservationService of internal/logic/v1/reservations.go, and
-- the reports of AvailabilityService.
use inventory_service.Base.{ℕ, GoString, Bool, true, false, if◌then◌else◌, List, [], ◌∷◌, ◌++◌}
use inventory_service.Domain.Types.{
  Line, ReservationRequest, ReservationResult, Reservation, Status,
}
use inventory_service.Domain.Errors.{
  Error, Result, ok, err, insufficient_stock, unknown_sku, idempotency_conflict, invalid_transition,
  reservation_not_found, concurrency_conflict, canceled,
}
use inventory_service.Store.Database.{Db, Env, Runtime}
use inventory_service.Reservations.Transition.{release, commit, get_reservation}
use inventory_service.Availability.Service.{
  AvailabilityReader, SkuAvailability, CheckResult, batch_get_availability, check_availability,
}
use inventory_service.Transport.Server.{service_reserve}
use inventory_service.Telemetry.Signals.{
  Operation, op_reserve, op_release, op_commit, op_get_reservation, op_check_availability,
  op_batch_availability, Outcome, outcome_fulfillable, outcome_shortage, outcome_unknown_sku,
  outcome_error, outcome_ok, outcome_replayed, outcome_insufficient, outcome_conflict,
  outcome_concurrency, outcome_invalid_transition, outcome_not_found, Signal, outcome_logged,
  reservation_rejected, record_check, record_reservation, start_logic_span, set_span_outcome,
  record_bounded_span_error, record_span_error,
}

-- failureOutcome
unfoldable pub failure_outcome : Error → Outcome
failure_outcome (unknown_sku skus) = outcome_unknown_sku
failure_outcome (insufficient_stock short) = outcome_insufficient
failure_outcome idempotency_conflict = outcome_conflict
failure_outcome concurrency_conflict = outcome_concurrency
failure_outcome invalid_transition = outcome_invalid_transition
failure_outcome reservation_not_found = outcome_not_found
failure_outcome e = outcome_error

-- logOutcome
unfoldable pub log_outcome : Operation → Outcome → List Signal
log_outcome op outcome = outcome_logged op outcome ∷ []

-- logRejected
unfoldable pub log_rejected : GoString → Outcome → List Signal
log_rejected ref outcome_insufficient = reservation_rejected ref outcome_insufficient ∷ []
log_rejected ref outcome_unknown_sku = reservation_rejected ref outcome_unknown_sku ∷ []
log_rejected ref _ = []

-- `if outcome == outcomeError { recordBoundedSpanError(…) }`
unfoldable pub span_error_of : Operation → Outcome → List Signal
unfolding record_bounded_span_error
span_error_of op outcome_error = record_bounded_span_error op
span_error_of op _ = []

-- finishOK
unfoldable pub finish_ok : Operation → Outcome → List Signal
unfolding record_reservation set_span_outcome log_outcome
finish_ok op outcome =
    record_reservation op outcome ++ (set_span_outcome outcome ++ log_outcome op outcome)

-- The outcome of an error that is not a cancellation, on the counter, the span and the log.
unfoldable pub report_failure : Operation → Outcome → List Signal
unfolding record_reservation set_span_outcome span_error_of log_outcome
report_failure op outcome =
    record_reservation op outcome
    ++ (set_span_outcome outcome ++ (span_error_of op outcome ++ log_outcome op outcome))

-- finishFailure
unfoldable pub finish_failure : Operation → Error → List Signal
unfolding report_failure failure_outcome
finish_failure op canceled = []
finish_failure op e = report_failure op (failure_outcome e)

-- What Reserve reports.
unfoldable pub reserve_signals : GoString → Result ReservationResult → List Signal
unfolding finish_failure log_rejected finish_ok start_logic_span
reserve_signals ref (err e) =
    start_logic_span op_reserve
    ++ (finish_failure op_reserve e ++ log_rejected ref (failure_outcome e))
reserve_signals ref (ok r) =
    start_logic_span op_reserve
    ++ finish_ok op_reserve (if r.replayed then outcome_replayed else outcome_ok)

-- ReservationService.Reserve with its reports.
unfoldable pub reserve_reported :
    Runtime → Env → ReservationRequest → Db → (Result ReservationResult × Db) × List Signal
unfolding reserve_signals
reserve_reported rt env req db =
    let done = service_reserve rt env req db in (done, reserve_signals req.id done.0)

-- What Release and Commit report.
unfoldable pub status_signals : Operation → Result Status → List Signal
unfolding finish_failure finish_ok start_logic_span
status_signals op (err e) = start_logic_span op ++ finish_failure op e
status_signals op (ok st) = start_logic_span op ++ finish_ok op outcome_ok

-- ReservationService.Release
unfoldable pub service_release : Env → GoString → GoString → Db → (Result Status × Db) × List Signal
unfolding status_signals
service_release env id reason db =
    let done = release env id reason db in (done, status_signals op_release done.0)

-- ReservationService.Commit
unfoldable pub service_commit : Env → GoString → Db → (Result Status × Db) × List Signal
unfolding status_signals
service_commit env id db = let done = commit env id db in (done, status_signals op_commit done.0)

-- `outcome := failureOutcome(err)` of GetReservation, on the span.
unfoldable pub stamp_failure : Operation → Outcome → List Signal
unfolding set_span_outcome span_error_of
stamp_failure op outcome = set_span_outcome outcome ++ span_error_of op outcome

unfoldable pub read_signals : Result Reservation → List Signal
unfolding stamp_failure failure_outcome set_span_outcome start_logic_span
read_signals (err canceled) = start_logic_span op_get_reservation
read_signals (err e) =
    start_logic_span op_get_reservation ++ stamp_failure op_get_reservation (failure_outcome e)
read_signals (ok r) = start_logic_span op_get_reservation ++ set_span_outcome outcome_ok

-- ReservationService.GetReservation; the transaction that it reads in is left out.
unfoldable pub service_get_reservation :
    (ℕ → GoString) → GoString → Db → Result Reservation × List Signal
unfolding read_signals
service_get_reservation format id db =
    let found = get_reservation format id db in (found, read_signals found)

-- What a failed CheckAvailability reports: a quantity that is not positive is an error as any other.
unfoldable pub check_failure : Error → List Signal
unfolding record_check record_span_error
check_failure canceled = record_span_error op_check_availability canceled
check_failure e = record_check outcome_error ++ record_span_error op_check_availability e

abbrev pub check_outcome : Bool → List GoString → Outcome
check_outcome true unknown = outcome_fulfillable
check_outcome false [] = outcome_shortage
check_outcome false (s ∷ unknown) = outcome_unknown_sku

-- What CheckAvailability reports.
unfoldable pub check_signals : Result CheckResult → List Signal
unfolding check_failure record_check set_span_outcome start_logic_span
check_signals (err e) = start_logic_span op_check_availability ++ check_failure e
check_signals (ok r) =
    let outcome = check_outcome r.can_fulfill r.unknown_sku_ids in
    start_logic_span op_check_availability ++ (record_check outcome ++ set_span_outcome outcome)

-- What BatchGetAvailability reports.
unfoldable pub batch_signals : Result (List SkuAvailability) → List Signal
unfolding record_span_error set_span_outcome start_logic_span
batch_signals (err e) =
    start_logic_span op_batch_availability ++ record_span_error op_batch_availability e
batch_signals (ok answers) = start_logic_span op_batch_availability ++ set_span_outcome outcome_ok

-- AvailabilityService.CheckAvailability with its reports.
unfoldable pub check_reported : AvailabilityReader → List Line → Result CheckResult × List Signal
unfolding check_signals
check_reported reader items =
    let done = check_availability reader items in (done, check_signals done)

-- AvailabilityService.BatchGetAvailability with its reports.
unfoldable pub batch_reported :
    AvailabilityReader → List GoString → Result (List SkuAvailability) × List Signal
unfolding batch_signals
batch_reported reader skus =
    let done = batch_get_availability reader skus in (done, batch_signals done)
