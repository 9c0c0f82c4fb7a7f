-- ===== src/Stock/Ledger.antt =====
-- The ledger accounts for every change that a stock command makes.
use inventory_service.Base.{
  ◌∙◌, GoString, ℤ, pos, ◌+ℤ◌, ◌≡◌, refl, none, some, ◌∷◌, int_laws, inl, inr, add-zero_ℤ,
}
use inventory_service.Domain.Types.{StockCommand, MovementType}
use inventory_service.Domain.Errors.{Result, ok}
use inventory_service.Store.Rows.{Balance}
use inventory_service.Store.Balances.{find, replace, HasKey, find-HasKey}
use inventory_service.Store.Database.{Db, Env}
use inventory_service.Store.Ledger.{
  on_hand_at-replace, reserved_at-replace, IsLedgered, IsLedgered-refl, IsLedgered-step,
}
use inventory_service.Stock.Commands.{
  add_on_hand, put_safety_stock, first_balance, movement_of, Operation, receipt, adjustment,
  safety_change, execute, intended, write,
}
use inventory_service.Stock.Runs.{claimed, execute_cases}
use inventory_service.Stock.Effects.{
  Rewrites, add_on_hand-eq-ok, put_safety_stock-eq-ok, apply_adjust-eq-ok, apply_safety_stock-eq-ok,
  upsert-eq-ok,
}

module _ (s : GoString) (w : ℤ) (env : Env) (cmd : StockCommand) (db : Db) where
  -- A rewritten row with the movement of its command.
  rewrite-IsLedgered :
      (type : MovementType) (delta : ℤ) (b b' : Balance)
      → find cmd.sku_id cmd.warehouse_id db.balances ≡ some b
      → b'.on_hand ≡ b.on_hand +ℤ delta
      → b'.reserved ≡ b.reserved
      → b'.sku_id ≡ b.sku_id
      → b'.warehouse_id ≡ b.warehouse_id
      → IsLedgered s w db (record (claimed (movement_of env cmd type delta) db) {
        balances = replace cmd.sku_id cmd.warehouse_id b' db.balances;
      })
  rewrite-IsLedgered type delta b b' f eo er es ew =
      let (same_sku, same_warehouse) =
        find-HasKey cmd.sku_id cmd.warehouse_id {b = b} db.balances f in
      let key : HasKey cmd.sku_id cmd.warehouse_id b' = (es ∙ same_sku, ew ∙ same_warehouse) in
      IsLedgered-step s w (movement_of env cmd type delta) db _ refl
        (on_hand_at-replace s w cmd.sku_id cmd.warehouse_id b b' delta db.balances f key eo)
        (reserved_at-replace s w cmd.sku_id cmd.warehouse_id b b' (pos 0) db.balances f key
          (er ∙ add-zero_ℤ b.reserved))

  -- A first receipt.
  insert-IsLedgered :
      find cmd.sku_id cmd.warehouse_id db.balances ≡ none
      → IsLedgered s w db
          (record (claimed (movement_of env cmd MovementType.receive cmd.quantity) db) {
            balances = first_balance env cmd ∷ db.balances;
          })
  unfolding find
  insert-IsLedgered f =
      IsLedgered-step s w (movement_of env cmd MovementType.receive cmd.quantity) db _ refl
        (grind int_laws) (grind int_laws)

  -- A write in the claimed database that found its row.
  Rewrites-IsLedgered :
      (type : MovementType) (delta : ℤ) (set : Balance → Result Balance) (db' : Db)
      → ((b b' : Balance)
          → set b ≡ ok b'
          → (b'.on_hand ≡ b.on_hand +ℤ delta)
            × (b'.reserved ≡ b.reserved)
            × (b'.sku_id ≡ b.sku_id)
            × (b'.warehouse_id ≡ b.warehouse_id))
      → Rewrites env cmd (claimed (movement_of env cmd type delta) db) db' set
      → IsLedgered s w db db'
  Rewrites-IsLedgered type delta set db' sets (b, b', f, e, same) =
      let (eo, er, es, ew) = sets b b' e in
      rw same (rewrite-IsLedgered type delta b b' f eo er es ew)

  add_on_hand-sets :
      (b b' : Balance)
      → add_on_hand env.now cmd.quantity b ≡ ok b'
      → (b'.on_hand ≡ b.on_hand +ℤ cmd.quantity)
        × (b'.reserved ≡ b.reserved)
        × (b'.sku_id ≡ b.sku_id)
        × (b'.warehouse_id ≡ b.warehouse_id)
  add_on_hand-sets b b' e =
      let (eo, er, _, es, ew, _) = add_on_hand-eq-ok env.now cmd.quantity b {b' = b'} e in
      (eo, er, es, ew)

  put_safety_stock-sets :
      (b b' : Balance)
      → put_safety_stock env.now cmd.quantity b ≡ ok b'
      → (b'.on_hand ≡ b.on_hand +ℤ pos 0)
        × (b'.reserved ≡ b.reserved)
        × (b'.sku_id ≡ b.sku_id)
        × (b'.warehouse_id ≡ b.warehouse_id)
  put_safety_stock-sets b b' e =
      let (eo, er, _, es, ew, _) = put_safety_stock-eq-ok env.now cmd.quantity b {b' = b'} e in
      (eo ∙ add-zero_ℤ b.on_hand, er, es, ew)

  -- The write of an operation, after its movement.
  write-IsLedgered :
      (op : Operation) (db' : Db)
      → write op env cmd (claimed (intended op env cmd) db) ≡ ok db'
      → IsLedgered s w db db'
  write-IsLedgered receipt db' applied = elim (upsert-eq-ok env cmd _ db' applied) [
    | inl (f, _, e) ↦ rw e (insert-IsLedgered f)
    | inr found ↦ Rewrites-IsLedgered MovementType.receive cmd.quantity _ db' add_on_hand-sets found
  ]
  write-IsLedgered adjustment db' applied =
      Rewrites-IsLedgered MovementType.adjust cmd.quantity _ db' add_on_hand-sets
        (apply_adjust-eq-ok env cmd _ db' applied)
  write-IsLedgered safety_change db' applied =
      Rewrites-IsLedgered MovementType.set_safety_stock (pos 0) _ db' put_safety_stock-sets
        (apply_safety_stock-eq-ok env cmd _ db' applied)

-- For every stock command, in every outcome, and for every SKU in every warehouse: the on_hand and
-- the reserved of its balance change by exactly what the ledger's new rows for that pair add up to.
pub execute-IsLedgered :
    (op : Operation) (env : Env) (cmd : StockCommand) (db : Db) (s : GoString) (w : ℤ)
    → IsLedgered s w db (execute op env cmd db).1
execute-IsLedgered op env cmd db s w =
    execute_cases (λ r. IsLedgered s w db r.1) op env cmd db (λ e. IsLedgered-refl s w db)
      (IsLedgered-refl s w db) (λ db' _ _ _ applied. write-IsLedgered s w env cmd db op db' applied)
