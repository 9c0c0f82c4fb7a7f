-- ===== src/Consistency/Defs.antt =====
-- The invariant that ties the reservations to the balances.
use inventory_service.Base.{GoString, ℤ, ◌≡◌, All}
use inventory_service.Store.Database.{Db}
use inventory_service.Store.Ledger.{reserved_at}
use inventory_service.Store.Valid.{IsStocked}
use inventory_service.Reservations.Held.{held, IsKnown}

pub record IsConsistent (db : Db) : Type 0 where
  -- The schema's guarantees on balances and movements.
  pub stocked : IsStocked db
  -- Every line's reservation is in the table.
  pub known : All (IsKnown db.reservations) db.lines
  -- For each SKU in each warehouse, `reserved` is the sum over the lines of the RESERVED reservations.
  pub held :
      (s : GoString) (w : ℤ) → reserved_at s w db.balances ≡ held s w db.reservations db.lines
