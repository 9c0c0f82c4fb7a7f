-- ===== src/Admin/Service.antt =====
-- internal/logic/v1/admin.go: AdminService, over the repositories.
use inventory_service.Base.{ℕ, GoString, ℤ, Bool, true, false, List, [], ◌∷◌, ◌++◌}
use inventory_service.Domain.Types.{StockCommand}
use inventory_service.Domain.Errors.{Result, ok, err, invalid_command}
use inventory_service.Domain.Validate.{validate}
use inventory_service.Store.Database.{Db, Env}
use inventory_service.Stock.Commands.{receive_stock, adjust_on_hand}
use inventory_service.Telemetry.Signals.{
  Operation, op_list_balances, op_sku_balances, op_list_movements, op_list_reservations,
  op_receive_stock, op_adjust_on_hand, CommandOutcome, cmd_outcome_applied, cmd_outcome_replayed,
  cmd_outcome_rejected, cmd_outcome_error, Signal, command_counted, start_logic_span,
  record_span_error,
}
use inventory_service.Admin.Views.{
  BalanceView, BalanceFilter, MovementView, MovementFilter, ReservationView,
}
use inventory_service.Admin.Reads.{
  ListReads, list_balances, sku_balances, list_movements, list_reservations,
}

-- recordAdminCommand
unfoldable pub record_admin_command : Operation → CommandOutcome → List Signal
record_admin_command op outcome = command_counted op outcome ∷ []

-- What a read reports; its result is passed on.
unfoldable pub read_reports : {A : Type 0} → Operation → Result A → List Signal
unfolding record_span_error start_logic_span
read_reports op (err e) = start_logic_span op ++ record_span_error op e
read_reports op (ok a) = start_logic_span op

unfoldable pub admin_list_balances :
    ListReads → BalanceFilter → ℤ → ℤ → Result (List BalanceView × ℕ) × List Signal
unfolding read_reports
admin_list_balances reads f limit offset =
    let r = list_balances reads f limit offset in (r, read_reports op_list_balances r)

unfoldable pub admin_sku_balances : Result Db → GoString → Result (List BalanceView) × List Signal
unfolding read_reports
admin_sku_balances read s = let r = sku_balances read s in (r, read_reports op_sku_balances r)

unfoldable pub admin_list_movements :
    ListReads → MovementFilter → ℤ → ℤ → Result (List MovementView × ℕ) × List Signal
unfolding read_reports
admin_list_movements reads f limit offset =
    let r = list_movements reads f limit offset in (r, read_reports op_list_movements r)

unfoldable pub admin_list_reservations :
    ListReads → GoString → ℤ → ℤ → Result (List ReservationView × ℕ) × List Signal
unfolding read_reports
admin_list_reservations reads status limit offset =
    let r = list_reservations reads status limit offset in (r, read_reports op_list_reservations r)

-- The `switch` of runCommand.
unfoldable pub command_reports : Operation → Result Bool → List Signal
unfolding record_span_error record_admin_command
command_reports op (err e) = record_span_error op e ++ record_admin_command op cmd_outcome_error
command_reports op (ok true) = record_admin_command op cmd_outcome_applied
command_reports op (ok false) = record_admin_command op cmd_outcome_replayed

-- runCommand; the error of Validate is wrapped together with ErrInvalidCommand.
unfoldable pub run_command :
    Operation
    → StockCommand
    → (StockCommand → Db → Result Bool × Db)
    → Db
    → (Result Bool × Db) × List Signal
unfolding command_reports start_logic_span record_admin_command
run_command op cmd run db = elim (validate cmd) [
  | err e ↦ (
    (err invalid_command, db),
    start_logic_span op ++ record_admin_command op cmd_outcome_rejected,
  )
  | ok _ ↦ let done = run cmd db in (done, start_logic_span op ++ command_reports op done.0)
]

-- AdminService.ReceiveStock
unfoldable pub admin_receive_stock : Env → StockCommand → Db → (Result Bool × Db) × List Signal
unfolding run_command
admin_receive_stock env cmd db = run_command op_receive_stock cmd (receive_stock env) db

-- AdminService.AdjustOnHand
unfoldable pub admin_adjust_on_hand : Env → StockCommand → Db → (Result Bool × Db) × List Signal
unfolding run_command
admin_adjust_on_hand env cmd db = run_command op_adjust_on_hand cmd (adjust_on_hand env) db
