-- ===== src/Tests/Commands.antt =====
-- The theorems on stock commands, at small inputs.
use inventory_service.Base.{
  ◌≡◌, ◌≢◌, ◌+ℤ◌, codes, pos, negsuc, [], ◌∷◌, none, some, true, false, refl, arith, subst, IsInt64,
}
use inventory_service.Base
use inventory_service.Domain.Types.{StockCommand}
use inventory_service.Domain.Errors.{ok, err, command_conflict}
use inventory_service.Domain.Validate.{validate}
use inventory_service.Store.Balances.{find}
use inventory_service.Store.Movements.{find_command, check_movement, warehouse_exists}
use inventory_service.Stock.Commands.{
  receipt, adjustment, execute, set_safety_stock, adjust_on_hand,
}
use inventory_service.Stock.Replay.{SameRequest, execute_retry, execute_reused}
use inventory_service.Stock.SafetyStock.{level_of, set_safety_stock_swallowed}
use inventory_service.Stock.Adjust.{adjusted, adjust_on_hand_exact}
use inventory_service.Tests.Data.{
  calm, receipt_of_ten, level_of_two, empty, stocked, levelled_db, held_db, seven_free,
}
use inventory_service.Tests.Stock.{receipt_run, level_run}
use inventory_service.Tests.Invariants.{held_db-IsConsistent}

execute_retry_example :
    execute receipt (calm 9 stocked) receipt_of_ten stocked ≡ (ok false, stocked)
execute_retry_example =
    execute_retry receipt (calm 5 empty) (calm 9 stocked) receipt_of_ten empty stocked receipt_run
      refl

-- The receipt's id, for a withdrawal.
abbrev minus_ten : StockCommand
minus_ten = record receipt_of_ten { quantity = negsuc 9 }

execute_reused_example :
    (SameRequest receipt adjustment receipt_of_ten minus_ten
      → execute adjustment (calm 9 stocked) minus_ten stocked ≡ (ok false, stocked))
    × (¬ SameRequest receipt adjustment receipt_of_ten minus_ten
        → execute adjustment (calm 9 stocked) minus_ten stocked ≡ (err command_conflict, stocked))
unfolding validate check_movement Base.text_discrete Base.int_discrete Base.ℕ_discrete
execute_reused_example =
    execute_reused receipt adjustment (calm 5 empty) (calm 9 stocked) receipt_of_ten minus_ten empty
      stocked receipt_run refl refl refl refl

set_safety_stock_swallowed_example :
    (set_safety_stock (calm 9 levelled_db) (record level_of_two { quantity = pos 5 }) levelled_db
      ≡ (ok false, levelled_db))
    × (level_of (find (codes "A") (pos 1) levelled_db.balances) ≢ some (pos 5))
unfolding execute
set_safety_stock_swallowed_example =
    set_safety_stock_swallowed (calm 6 stocked) (calm 9 levelled_db) level_of_two (pos 5) stocked
      levelled_db level_run (omega arith) (λ e. cc) refl

-- All that is free.
abbrev minus_seven : StockCommand
minus_seven = record receipt_of_ten { command_id = codes "c2"; quantity = negsuc 6 }

adjust_on_hand_exact_example :
    adjust_on_hand (calm 7 held_db) minus_seven held_db
    ≡ adjusted (calm 7 held_db) minus_seven held_db (find (codes "A") (pos 1) held_db.balances)
unfolding ◌+ℤ◌ validate check_movement find find_command warehouse_exists Base.text_discrete
    Base.int_discrete Base.ℕ_discrete
adjust_on_hand_exact_example =
    adjust_on_hand_exact (calm 7 held_db) minus_seven held_db held_db-IsConsistent.stocked
      (record {
        guarded = refl;
        storable = refl;
        fresh = refl;
        placed = refl;
        begins = refl;
        finishes = refl;
      })
      (λ b h.
        let same : seven_free ≡ b = cc h in
        subst (λ x. IsInt64 (x.on_hand +ℤ negsuc 6) × IsInt64 (x.version +ℤ pos 1)) same
          (ground arith, ground arith))
