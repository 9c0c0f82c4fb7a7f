-- ===== src/Telemetry/Agreement.antt =====
-- The counter, the spans and the event say what the caller was told.
use inventory_service.Base.{
  GoString, ◌≡◌, refl, Bool, true, false, if◌then◌else◌, Option, none, some, List, [], ◌∷◌,
}
use inventory_service.Domain.Types.{ReservationRequest, ReservationResult, Status}
use inventory_service.Domain.Errors.{Result, ok, err, canceled}
use inventory_service.Store.Database.{Db, Env, Runtime}
use inventory_service.Transport.Wire.{
  Reply, reply, refused, Reason, validation_error, sku_not_found, reason_insufficient_stock,
  reason_idempotency_conflict, reason_invalid_transition, reason_not_found,
  reason_concurrency_conflict, dependency_unavailable, no_reason, reservation_error,
}
use inventory_service.Transport.Server.{reserve_reply, status_reply}
use inventory_service.Telemetry.Signals.{
  Operation, op_reserve, op_release, op_commit, Outcome, outcome_error, outcome_ok,
  outcome_replayed, outcome_insufficient, outcome_unknown_sku, outcome_conflict,
  outcome_concurrency, outcome_invalid_transition, outcome_not_found, Signal, check_counted,
  reservation_counted, command_counted, span_started, outcome_stamped, span_failed, outcome_logged,
  reservation_rejected,
}
use inventory_service.Telemetry.Services.{
  reserve_signals, status_signals, reserve_reported, service_release, service_commit,
}

-- What a dashboard shows of a call: the increments of inventory.reservation.total, the outcome on
-- the span, whether the span is an error, and the events.
pub record Dashboard : Type 0 where
  pub counts : List (Operation × Outcome)
  pub stamps : List Outcome
  pub failures : List Operation
  pub events : List Outcome

abbrev pub dashboard : List Signal → Dashboard
dashboard [] = record { counts = []; stamps = []; failures = []; events = [] }
dashboard (reservation_counted op o ∷ ss) =
    let d = dashboard ss in record d { counts = (op, o) ∷ d.counts }
dashboard (outcome_stamped o ∷ ss) = let d = dashboard ss in record d { stamps = o ∷ d.stamps }
dashboard (span_failed op ∷ ss) = let d = dashboard ss in record d { failures = op ∷ d.failures }
dashboard (reservation_rejected ref o ∷ ss) =
    let d = dashboard ss in record d { events = o ∷ d.events }
dashboard (check_counted o ∷ ss) = dashboard ss
dashboard (command_counted op o ∷ ss) = dashboard ss
dashboard (span_started op ∷ ss) = dashboard ss
dashboard (outcome_logged op o ∷ ss) = dashboard ss

-- The outcome that a caller can tell from the reason of an error; a canceled call has none.
abbrev pub told : Reason → Option Outcome
told sku_not_found = some outcome_unknown_sku
told reason_insufficient_stock = some outcome_insufficient
told reason_idempotency_conflict = some outcome_conflict
told reason_invalid_transition = some outcome_invalid_transition
told reason_not_found = some outcome_not_found
told reason_concurrency_conflict = some outcome_concurrency
told dependency_unavailable = some outcome_error
told validation_error = none
told no_reason = none

-- The dashboard of a call that ended in an outcome.
abbrev pub shown : Operation → Bool → Option Outcome → Dashboard
shown op reserves none = record { counts = []; stamps = []; failures = []; events = [] }
shown op reserves (some o) = record {
  counts = (op, o) ∷ [];
  stamps = o ∷ [];
  failures = (elim o [ outcome_error ↦ op ∷ [] | _ ↦ [] ]);
  events =
      if reserves
      then (elim o [
        | outcome_insufficient ↦ outcome_insufficient ∷ []
        | outcome_unknown_sku ↦ outcome_unknown_sku ∷ []
        | _ ↦ []
      ])
      else [];
}

-- The outcome told by a reply.
abbrev pub told_by : {A : Type 0} → Bool → Reply A → Option Outcome
told_by replayed (reply a) = some (if replayed then outcome_replayed else outcome_ok)
told_by replayed (refused w) = told w.reason

abbrev pub was_replayed : Result ReservationResult → Bool
was_replayed (ok r) = r.replayed
was_replayed (err e) = false

reserve_signals-shown :
    (ref : GoString) (r : Result ReservationResult)
    → dashboard (reserve_signals ref r)
      ≡ shown op_reserve true (told_by (was_replayed r) (reserve_reply r))
unfolding reserve_signals reservation_error
reserve_signals-shown ref (ok r) =
    elim r.replayed
      as (λ b.
        dashboard (reserve_signals ref (ok (record r { replayed = b })))
        ≡ shown op_reserve true (some (if b then outcome_replayed else outcome_ok))) [
          | true ↦ refl
          | false ↦ refl
        ]
reserve_signals-shown ref (err canceled) = refl
reserve_signals-shown ref (err _) = refl

status_signals-shown :
    (op : Operation) (id : GoString) (r : Result Status)
    → dashboard (status_signals op r) ≡ shown op false (told_by false (status_reply id r))
unfolding status_signals reservation_error
status_signals-shown op id (ok st) = refl
status_signals-shown op id (err canceled) = refl
status_signals-shown op id (err _) = refl

-- Whatever Reserve, Release and Commit come to, what they report is what the caller is told. The
-- counter goes up once, under the operation and the outcome that the reply stands for (a replay of
-- Reserve apart, which the reply does not show), and the span carries the same outcome; a call that
-- ends as canceled shows nothing. The span is an error exactly when the reply is
-- DEPENDENCY_UNAVAILABLE, and the event inventory.reservation.rejected is written exactly when a
-- Reserve is refused for stock or for a SKU that is not tracked.
pub reports_agree :
    (rt : Runtime) (env : Env) (req : ReservationRequest) (id reason : GoString) (db : Db)
    → (let ((r, _), signals) = reserve_reported rt env req db in
        dashboard signals ≡ shown op_reserve true (told_by (was_replayed r) (reserve_reply r)))
      × (let ((r, _), signals) = service_release env id reason db in
          dashboard signals ≡ shown op_release false (told_by false (status_reply id r)))
      × (let ((r, _), signals) = service_commit env id db in
          dashboard signals ≡ shown op_commit false (told_by false (status_reply id r)))
unfolding reserve_reported service_release service_commit
reports_agree rt env req id reason db = (
  reserve_signals-shown req.id _,
  status_signals-shown op_release id _,
  status_signals-shown op_commit id _,
)
