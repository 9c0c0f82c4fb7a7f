-- ===== src/Tests/Office.antt =====
-- The theorems on the back office and its HTTP API, at small inputs.
use inventory_service.Base.{
  ◌≡◌, refl, codes, pos, negsuc, [], List, keep, some, true, false, arith, ◌+ℤ◌, IsSorted, subst,
  IsInt64, text_discrete, int_discrete, ℕ_discrete,
}
use mathlib.Core.List.{Perm}
use inventory_service.Domain.Validate.{validate}
use inventory_service.Store.Rows.{Balance, check_balance}
use inventory_service.Store.Balances.{find}
use inventory_service.Store.Movements.{find_command, check_movement, warehouse_exists}
use inventory_service.Admin.Views.{BalanceFilter, MovementFilter}
use inventory_service.Admin.Reads.{ListReads, balance_view, balance_before, list_balances}
use inventory_service.Admin.Pages.{still, selects_balance}
use inventory_service.Admin.Complete.{IsPaged, list_balances_complete}
use inventory_service.Admin.Service.{admin_receive_stock}
use inventory_service.Stock.Commands.{receive_stock, claim_command, upsert}
use inventory_service.Transport.Server.{wire_allocation, reserve_reply, status_reply}
use inventory_service.Telemetry.Signals.{op_reserve, op_release, op_commit}
use inventory_service.Telemetry.Services.{reserve_reported, service_release, service_commit}
use inventory_service.Telemetry.Agreement.{dashboard, shown, told_by, was_replayed, reports_agree}
use inventory_service.Web.Wire.{code_internal, respond_error, ReceiptRequest, AdjustmentRequest}
use inventory_service.Web.Handlers.{
  admin_service, warehouse_param, post_receipts, respond_command, adjustment_command,
}
use inventory_service.Web.Posts.{of_receipt, of_adjustment, post, applied_reply}
use inventory_service.Web.Replies.{
  post_retry, post_unknown_warehouse, post_adjustment_exact, adjustment_reply,
}
use inventory_service.Web.Warehouses.{warehouse_param-wire_allocation}
use inventory_service.Tests.Data.{
  plain, calm, empty, stocked, held_db, seven_free, request, allocation,
}
use inventory_service.Tests.Invariants.{held_db-IsConsistent}

abbrev low_in_depot : BalanceFilter
low_in_depot = record { sku_id = []; warehouse_id = pos 1; low_stock_only = true }

list_balances_complete_example :
    (rows : List Balance) × Perm rows (keep (selects_balance low_in_depot) held_db.balances)
    × IsSorted balance_before rows
    × IsPaged balance_view (list_balances (still held_db) low_in_depot) rows
list_balances_complete_example = list_balances_complete held_db low_in_depot

abbrev of_a : MovementFilter
of_a = record { sku_id = codes "A"; warehouse_id = pos 0 }

reports_agree_example :
    (let ((r, _), signals) = reserve_reported plain (calm 6 stocked) request stocked in
      dashboard signals ≡ shown op_reserve true (told_by (was_replayed r) (reserve_reply r)))
    × (let ((r, _), signals) =
          service_release (calm 6 stocked) (codes "r1") (codes "gone") stocked in
        dashboard signals ≡ shown op_release false (told_by false (status_reply (codes "r1") r)))
    × (let ((r, _), signals) = service_commit (calm 6 stocked) (codes "r1") stocked in
        dashboard signals ≡ shown op_commit false (told_by false (status_reply (codes "r1") r)))
reports_agree_example =
    reports_agree plain (calm 6 stocked) request (codes "r1") (codes "gone") stocked

warehouse_param-wire_allocation_example :
    warehouse_param (wire_allocation allocation).warehouse_id ≡ some (pos 1)
warehouse_param-wire_allocation_example =
    warehouse_param-wire_allocation allocation (omega arith) refl

abbrev body : ReceiptRequest
body = record {
  command_id = codes "c1";
  sku_id = codes "A";
  warehouse_id = pos 1;
  quantity = pos 10;
  reason = codes "po";
}

abbrev idle : ListReads
idle = still empty

post_run :
    post (admin_service (calm 5 empty) idle) (codes "op") (of_receipt body) empty
    ≡ (applied_reply (codes "c1") true, stocked)
unfolding post_receipts admin_receive_stock receive_stock claim_command upsert check_balance
    validate check_movement find_command warehouse_exists find respond_command text_discrete
    int_discrete ℕ_discrete
post_run = refl

post_retry_example :
    post (admin_service (calm 9 stocked) (still stocked)) (codes "op") (of_receipt body) stocked
    ≡ (applied_reply (codes "c1") false, stocked)
post_retry_example =
    post_retry (calm 5 empty) (calm 9 stocked) idle (still stocked) (codes "op") (of_receipt body)
      empty stocked post_run refl

-- A correction in a warehouse that there is not.
abbrev nowhere : AdjustmentRequest
nowhere = record {
  command_id = codes "c7";
  sku_id = codes "A";
  warehouse_id = pos 9;
  delta = negsuc 0;
  reason = codes "lost";
}

post_unknown_warehouse_example :
    post
      (admin_service (calm 7 stocked) (still stocked))
      (codes "op")
      (of_adjustment nowhere)
      stocked
    ≡ (respond_error 500 code_internal, stocked)
unfolding validate check_movement find_command warehouse_exists text_discrete int_discrete
    ℕ_discrete
post_unknown_warehouse_example =
    post_unknown_warehouse (calm 7 stocked) (still stocked) (codes "op") (of_adjustment nowhere)
      stocked (λ h. cc) refl refl refl refl refl

-- One unit lost of the ten, of which three are held.
abbrev loss : AdjustmentRequest
loss = record nowhere { warehouse_id = pos 1 }

post_adjustment_exact_example :
    (post
      (admin_service (calm 7 held_db) (still held_db))
      (codes "op")
      (of_adjustment loss)
      held_db).0
    ≡ adjustment_reply
        (adjustment_command (codes "op") loss)
        (find (codes "A") (pos 1) held_db.balances)
unfolding ◌+ℤ◌ validate check_movement find find_command warehouse_exists text_discrete int_discrete
    ℕ_discrete
post_adjustment_exact_example =
    post_adjustment_exact (calm 7 held_db) (still held_db) (codes "op") loss held_db (λ h. cc)
      held_db-IsConsistent.stocked
      (record {
        guarded = refl;
        storable = refl;
        fresh = refl;
        placed = refl;
        begins = refl;
        finishes = refl;
      })
      (λ b h.
        let same : seven_free ≡ b = cc h in
        subst (λ x. IsInt64 (x.on_hand +ℤ negsuc 0) × IsInt64 (x.version +ℤ pos 1)) same
          (ground arith, ground arith))
