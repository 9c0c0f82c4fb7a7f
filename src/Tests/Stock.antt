-- ===== src/Tests/Stock.antt =====
-- The stock commands.
use inventory_service.Base.{◌≡◌, refl, ◌+ℤ◌, text_discrete, int_discrete, ℕ_discrete, true}
use inventory_service.Domain.Errors.{ok}
use inventory_service.Domain.Validate.{validate}
use inventory_service.Store.Rows.{bigint_add, check_balance}
use inventory_service.Store.Balances.{find, update, replace}
use inventory_service.Store.Movements.{find_command, check_movement, warehouse_exists}
use inventory_service.Stock.Commands.{
  execute, receipt, safety_change, receive_stock, set_safety_stock, claim_command, upsert,
  apply_safety_stock, put_safety_stock,
}
use inventory_service.Tests.Data.{calm, receipt_of_ten, level_of_two, empty, stocked, levelled_db}

pub receipt_run : execute receipt (calm 5 empty) receipt_of_ten empty ≡ (ok true, stocked)
unfolding execute receive_stock claim_command upsert check_balance validate check_movement
    find_command warehouse_exists find text_discrete int_discrete ℕ_discrete
receipt_run = refl

pub level_run : execute safety_change (calm 6 stocked) level_of_two stocked ≡ (ok true, levelled_db)
unfolding execute set_safety_stock claim_command apply_safety_stock put_safety_stock update
    bigint_add ◌+ℤ◌ check_balance validate check_movement find_command warehouse_exists find replace
    text_discrete int_discrete ℕ_discrete
level_run = refl
