-- ===== src/Stock/Adjust.antt =====
-- AdjustOnHand and the balance invariants.
use inventory_service.Base.{
  ℤ, pos, ◌≤ℤ◌, leb_ℤ, ◌+ℤ◌, IsInt64, ◌≡◌, refl, ◌∙◌, Bool, true, none, some, Option, arith,
  if◌then◌else◌, ◌∷◌,
}
use inventory_service.Domain.Types.{StockCommand}
use inventory_service.Domain.Errors.{
  Result, ok, err, on_error, insufficient_on_hand, balance_not_found,
}
use inventory_service.Store.Rows.{Balance, bigint_add, check_balance}
use inventory_service.Store.Balances.{find, update, replace}
use inventory_service.Store.Movements.{check_movement, find_command, warehouse_exists}
use inventory_service.Store.Database.{Db, Env, transact}
use inventory_service.Store.Valid.{IsChecked, IsStocked, find-IsChecked}
use inventory_service.Stock.Commands.{
  adjustment, adjust_on_hand, guards, intended, claim_and_apply, claim_command, apply_adjust,
  add_on_hand, check_violation_error,
}
use inventory_service.Stock.Runs.{claimed}

-- The row after an adjustment.
abbrev pub after_adjustment : Env → ℤ → Balance → Balance
after_adjustment env q b = record b {
  on_hand = b.on_hand +ℤ q;
  version = b.version +ℤ pos 1;
  updated_at = env.now;
}

-- The arithmetic of one row.
add_on_hand-exact :
    (env : Env) (q : ℤ) (b : Balance)
    → IsChecked b
    → IsInt64 (b.on_hand +ℤ q)
    → IsInt64 (b.version +ℤ pos 1)
    → (b.reserved ≤ℤ b.on_hand +ℤ q → add_on_hand env.now q b ≡ ok (after_adjustment env q b))
      × (¬ (b.reserved ≤ℤ b.on_hand +ℤ q)
          → on_error check_violation_error (add_on_hand env.now q b) ≡ err insufficient_on_hand)
unfolding add_on_hand bigint_add check_balance check_violation_error
add_on_hand-exact env q b h i v = ((λ fits. ground arith), (λ short. ground arith))

module _ (env : Env) (cmd : StockCommand) where
  -- The outcome of an adjustment that reaches its row: the answer, and what it leaves of `db`.
  abbrev pub adjusted : Db → Option Balance → Result Bool × Db
  adjusted db none = (err balance_not_found, db)
  adjusted db (some b) =
      if leb_ℤ b.reserved (b.on_hand +ℤ cmd.quantity)
      then (
        ok true,
        record db {
          balances =
              replace cmd.sku_id cmd.warehouse_id (after_adjustment env cmd.quantity b) db.balances;
          movements = intended adjustment env cmd ∷ db.movements;
        },
      )
      else (err insufficient_on_hand, db)

  -- What the transaction makes of the outcome of its UPDATE.
  abbrev settled : Db → Result Db → Result Bool × Db
  settled db (ok now) = (ok true, now)
  settled db (err e) = (err e, db)

  apply_adjust-exact :
      (db : Db) (o : Option Balance)
      → find cmd.sku_id cmd.warehouse_id db.balances ≡ o
      → ((b : Balance)
          → o ≡ some b
          → IsChecked b × IsInt64 (b.on_hand +ℤ cmd.quantity) × IsInt64 (b.version +ℤ pos 1))
      → settled db (apply_adjust env cmd (claimed (intended adjustment env cmd) db)) ≡ adjusted db o
  unfolding apply_adjust update
  apply_adjust-exact db none f fits = rw (f, update)
  apply_adjust-exact db (some b) f fits =
      let (fine, i, v) = fits b refl in
      let (yes_case, no_case) = add_on_hand-exact env cmd.quantity b fine i v in
      rw (f, update) (ground arith)

module _ (env : Env) (cmd : StockCommand) (db : Db) where
  -- The command is well-formed, its command_id is new, its warehouse exists, and the transaction
  -- can begin and commit.
  pub record IsUnhindered : Type 0 where
    pub guarded : guards adjustment cmd ≡ ok tt
    pub storable : check_movement (intended adjustment env cmd) ≡ ok tt
    pub fresh : find_command cmd.command_id db.movements ≡ none
    pub placed : warehouse_exists cmd.warehouse_id db.warehouses ≡ true
    pub begins : env.begin ≡ none
    pub finishes : env.commit ≡ none

  -- The sums that the row's columns take fit into a BIGINT.
  abbrev pub HasRoom : Type 0
  HasRoom =
      (b : Balance)
      → find cmd.sku_id cmd.warehouse_id db.balances ≡ some b
      → IsInt64 (b.on_hand +ℤ cmd.quantity) × IsInt64 (b.version +ℤ pos 1)

  run-adjust :
      IsUnhindered
      → adjust_on_hand env cmd db
        ≡ settled env cmd db (apply_adjust env cmd (claimed (intended adjustment env cmd) db))
  unfolding adjust_on_hand claim_and_apply claim_command transact
  run-adjust u = ground arith

  -- In a store whose balances pass the CHECKs and have distinct keys, an adjustment that nothing
  -- else hinders, and whose sums fit a BIGINT, is applied exactly when the sum still covers what is
  -- reserved: then it answers `true`, its row has the new on_hand and the next version, the ledger
  -- has its movement, and nothing else has changed. If the sum does not cover it, it is refused with
  -- ErrInsufficientOnHand, and if there is no balance to adjust with ErrBalanceNotFound, and nothing
  -- has changed.
  pub adjust_on_hand_exact :
      IsStocked db
      → IsUnhindered
      → HasRoom
      → adjust_on_hand env cmd db
        ≡ adjusted env cmd db (find cmd.sku_id cmd.warehouse_id db.balances)
  adjust_on_hand_exact h u room =
      run-adjust u
      ∙ apply_adjust-exact env cmd db _ refl λ b f. (
        find-IsChecked cmd.sku_id cmd.warehouse_id {b = b} db.balances h.checked f,
        (room b f).0,
        (room b f).1,
      )
