-- ===== src/Telemetry/Signals.antt =====
-- internal/logic/v1/metrics.go and tracing.go: the bounded labels, and what is reported as a list of
-- signals in order. The constants' names are kept as constructors; spans are taken as recording.
use inventory_service.Base.{GoString, List, [], ◌∷◌, ◌++◌}
use inventory_service.Domain.Errors.{Error, canceled}

pub data Operation : Type 0 where
  op_reserve op_release op_commit op_get_reservation : Operation
  op_check_availability op_batch_availability : Operation
  op_list_balances op_sku_balances op_list_movements op_list_reservations : Operation
  op_receive_stock op_adjust_on_hand : Operation

pub data Outcome : Type 0 where
  outcome_fulfillable outcome_shortage outcome_unknown_sku outcome_error : Outcome
  outcome_ok outcome_replayed outcome_insufficient outcome_conflict outcome_concurrency : Outcome
  outcome_invalid_transition outcome_not_found : Outcome

-- The outcomes of the protected commands.
pub data CommandOutcome : Type 0 where
  cmd_outcome_applied cmd_outcome_replayed cmd_outcome_rejected cmd_outcome_error : CommandOutcome

pub data Signal : Type 0 where
  -- The three counters.
  check_counted : Outcome → Signal
  reservation_counted : Operation → Outcome → Signal
  command_counted : Operation → CommandOutcome → Signal
  -- A span with its operation, the outcome stamped on it, and its error.
  span_started : Operation → Signal
  outcome_stamped : Outcome → Signal
  span_failed : Operation → Signal
  -- The debug log of a command, and the event inventory.reservation.rejected.
  outcome_logged : Operation → Outcome → Signal
  reservation_rejected : GoString → Outcome → Signal

-- recordCheck
unfoldable pub record_check : Outcome → List Signal
record_check outcome = check_counted outcome ∷ []

-- recordReservation
unfoldable pub record_reservation : Operation → Outcome → List Signal
record_reservation op outcome = reservation_counted op outcome ∷ []

-- startLogicSpan
unfoldable pub start_logic_span : Operation → List Signal
start_logic_span op = span_started op ∷ []

-- setSpanOutcome
unfoldable pub set_span_outcome : Outcome → List Signal
set_span_outcome outcome = outcome_stamped outcome ∷ []

-- recordBoundedSpanError
unfoldable pub record_bounded_span_error : Operation → List Signal
record_bounded_span_error op = span_failed op ∷ []

-- recordSpanError
unfoldable pub record_span_error : Operation → Error → List Signal
unfolding set_span_outcome record_bounded_span_error
record_span_error op canceled = []
record_span_error op e = set_span_outcome outcome_error ++ record_bounded_span_error op
