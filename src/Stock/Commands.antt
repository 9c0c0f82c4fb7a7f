-- ===== src/Stock/Commands.antt =====
-- internal/core/repository/stock_commands.go, and the StockCommander port that it implements.
use inventory_service.Base.{
  ℕ, zero, suc, GoString, codes, text_eq, ℤ, pos, int_eq, leb_ℤ, ltb_ℤ, Bool, true, false, not,
  ◌&&◌, if◌then◌else◌, Option, none, some, List, [], ◌∷◌,
}
use inventory_service.Domain.Types.{StockCommand, MovementType}
use inventory_service.Domain.Errors.{
  Error, Result, ok, err, pg, check_violation, command_conflict, insufficient_on_hand,
  balance_not_found, invalid_input, require, on_error, ◌>>=◌, ◌>>◌,
}
use inventory_service.Domain.Validate.{validate}
use inventory_service.Store.Rows.{Balance, Movement, bigint_add, check_balance, varchar}
use inventory_service.Store.Balances.{find, update, replace}
use inventory_service.Store.Movements.{find_command, check_movement, reference}
use inventory_service.Store.Database.{Db, Env, Ending, commits, leaves, transact}

unfoldable pub same_type : MovementType → MovementType → Bool
same_type MovementType.receive MovementType.receive = true
same_type MovementType.adjust MovementType.adjust = true
same_type MovementType.set_safety_stock MovementType.set_safety_stock = true
same_type MovementType.reserve MovementType.reserve = true
same_type MovementType.release MovementType.release = true
same_type MovementType.sale_committed MovementType.sale_committed = true
same_type MovementType.return_stock MovementType.return_stock = true
same_type _ _ = false

-- COALESCE(s, '')
abbrev pub coalesce : Option GoString → GoString
coalesce none = []
coalesce (some s) = s

-- The movement that a command writes.
abbrev pub movement_of : Env → StockCommand → MovementType → ℤ → Movement
movement_of env cmd type on_hand_delta = record {
  command_id = cmd.command_id;
  sku_id = cmd.sku_id;
  warehouse_id = cmd.warehouse_id;
  type = type;
  on_hand_delta = on_hand_delta;
  reserved_delta = pos 0;
  reference_type = codes "admin";
  reference_id = none;
  reason = some cmd.reason;
  actor = some cmd.actor;
  created_at = env.now;
}

-- The comparison of a stored movement with the one that the command would write.
unfoldable pub matches : Movement → Movement → Bool
matches prev m =
    text_eq prev.sku_id m.sku_id
    && int_eq prev.warehouse_id m.warehouse_id
    && same_type prev.type m.type
    && int_eq prev.on_hand_delta m.on_hand_delta
    && int_eq prev.reserved_delta m.reserved_delta
    && text_eq (coalesce prev.actor) (coalesce m.actor)
    && text_eq (coalesce prev.reason) (coalesce m.reason)

-- `none`: the command_id is taken by the same movement, a replay. `some db'`: it is claimed.
unfoldable pub claim_command : Movement → Db → Result (Option Db)
claim_command m db = do
  check_movement m
  elim (find_command m.command_id db.movements) [
    | some prev ↦ if matches prev m then ok none else err command_conflict
    | none ↦ do
      reference db.warehouses m.warehouse_id
      ok (some (record db { movements = m ∷ db.movements }))
  ]

-- The transaction's body: claim, then apply.
unfoldable pub claim_and_apply : Movement → (Db → Result Db) → Db → Result (Ending Bool)
claim_and_apply m apply db = do
  claimed ← claim_command m db
  elim claimed [ none ↦ ok (leaves false) | some db1 ↦ do db2 ← apply db1; ok (commits true db2) ]

unfoldable pub run : Env → Movement → (Db → Result Db) → Db → Result Bool × Db
unfolding transact claim_and_apply
run env m apply db = transact env (λ e. e) (claim_and_apply m apply db) db

-- checkViolation: a failed CHECK is the business error.
unfoldable pub check_violation_error : Error → Error
check_violation_error (pg check_violation) = insufficient_on_hand
check_violation_error e = e

-- `on_hand = on_hand + q, version = version + 1, updated_at = now()`
unfoldable pub add_on_hand : ℕ → ℤ → Balance → Result Balance
add_on_hand now q b = do
  on_hand ← bigint_add b.on_hand q
  version ← bigint_add b.version (pos 1)
  check_balance (record b { on_hand = on_hand; version = version; updated_at = now })

unfoldable pub put_safety_stock : ℕ → ℤ → Balance → Result Balance
put_safety_stock now q b = do
  version ← bigint_add b.version (pos 1)
  check_balance (record b { safety_stock = q; version = version; updated_at = now })

-- A balance as its first receipt inserts it; the other columns have their defaults.
abbrev pub first_balance : Env → StockCommand → Balance
first_balance env cmd = record {
  sku_id = cmd.sku_id;
  warehouse_id = cmd.warehouse_id;
  on_hand = cmd.quantity;
  reserved = pos 0;
  safety_stock = pos 0;
  version = pos 1;
  updated_at = env.now;
}

-- `INSERT INTO inventory_balances … ON CONFLICT (sku_id, warehouse_id) DO UPDATE`
unfoldable pub upsert : Env → StockCommand → Db → Result Db
upsert env cmd db = do
  varchar 64 cmd.sku_id
  new ← check_balance (first_balance env cmd)
  elim (find cmd.sku_id cmd.warehouse_id db.balances) [
    | none ↦ do
      reference db.warehouses cmd.warehouse_id
      ok (record db { balances = new ∷ db.balances })
    | some b ↦ do
      b' ← add_on_hand env.now cmd.quantity b
      ok (record db { balances = replace cmd.sku_id cmd.warehouse_id b' db.balances })
  ]

-- RowsAffected() == 0
abbrev pub some_row : Db → List Balance × ℕ → Result Db
some_row db (bs, zero) = err balance_not_found
some_row db (bs, suc n) = ok (record db { balances = bs })

unfoldable pub apply_adjust : Env → StockCommand → Db → Result Db
apply_adjust env cmd db = do
  done ←
      on_error check_violation_error
        (update (add_on_hand env.now cmd.quantity) cmd.sku_id cmd.warehouse_id db.balances)
  some_row db done

unfoldable pub apply_safety_stock : Env → StockCommand → Db → Result Db
apply_safety_stock env cmd db = do
  done ← update (put_safety_stock env.now cmd.quantity) cmd.sku_id cmd.warehouse_id db.balances
  some_row db done

-- The checks before a transaction begins.
abbrev pub checked : Result (Unit {0}) → Db → Result Bool × Db → Result Bool × Db
checked (ok _) db r = r
checked (err e) db r = (err e, db)

unfoldable pub receive_stock : Env → StockCommand → Db → Result Bool × Db
unfolding run
receive_stock env cmd db =
    checked (validate cmd >> require (not (leb_ℤ cmd.quantity (pos 0))) invalid_input) db
      (run env (movement_of env cmd MovementType.receive cmd.quantity) (upsert env cmd) db)

unfoldable pub adjust_on_hand : Env → StockCommand → Db → Result Bool × Db
unfolding run
adjust_on_hand env cmd db =
    checked (validate cmd >> require (not (int_eq cmd.quantity (pos 0))) invalid_input) db
      (run env (movement_of env cmd MovementType.adjust cmd.quantity) (apply_adjust env cmd) db)

unfoldable pub set_safety_stock : Env → StockCommand → Db → Result Bool × Db
unfolding run
set_safety_stock env cmd db =
    checked (validate cmd >> require (not (ltb_ℤ cmd.quantity (pos 0))) invalid_input) db (
      run env (movement_of env cmd MovementType.set_safety_stock (pos 0))
        (apply_safety_stock env cmd) db)

-- The operations of the StockCommander port.
pub data Operation : Type 0 where
  receipt adjustment safety_change : Operation

unfoldable pub execute : Operation → Env → StockCommand → Db → Result Bool × Db
execute receipt = receive_stock
execute adjustment = adjust_on_hand
execute safety_change = set_safety_stock

-- The movement that an operation claims its command_id with.
abbrev pub intended : Operation → Env → StockCommand → Movement
intended receipt env cmd = movement_of env cmd MovementType.receive cmd.quantity
intended adjustment env cmd = movement_of env cmd MovementType.adjust cmd.quantity
intended safety_change env cmd = movement_of env cmd MovementType.set_safety_stock (pos 0)

-- The write of an operation.
abbrev pub write : Operation → Env → StockCommand → Db → Result Db
write receipt = upsert
write adjustment = apply_adjust
write safety_change = apply_safety_stock

-- The checks of an operation before its transaction.
abbrev pub guards : Operation → StockCommand → Result (Unit {0})
guards receipt cmd = validate cmd >> require (not (leb_ℤ cmd.quantity (pos 0))) invalid_input
guards adjustment cmd = validate cmd >> require (not (int_eq cmd.quantity (pos 0))) invalid_input
guards safety_change cmd = validate cmd >> require (not (ltb_ℤ cmd.quantity (pos 0))) invalid_input
