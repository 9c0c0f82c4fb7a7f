-- ===== src/Consistency/Supply.antt =====
-- The stock commands keep the keys, the foreign keys and the CHECK of the other tables.
use inventory_service.Base.{◌≡◌, refl, sym, ◌∙◌, true, inl, inr, List, All, arith}
use inventory_service.Domain.Types.{StockCommand}
use inventory_service.Domain.Errors.{Result, ok}
use inventory_service.Store.Rows.{Movement, Balance}
use inventory_service.Store.Balances.{find-HasKey}
use inventory_service.Store.Database.{Db, Env, transact}
use inventory_service.Stock.Commands.{
  Operation, receipt, adjustment, safety_change, execute, intended, write, add_on_hand,
  put_safety_stock, run, claim_and_apply, claim_command, guards,
}
use inventory_service.Stock.Runs
use inventory_service.Stock.Runs.{execute_cases, execute_lem, checked_cases}
use inventory_service.Stock.Effects.{
  Rewrites, add_on_hand-eq-ok, put_safety_stock-eq-ok, apply_adjust-eq-ok, apply_safety_stock-eq-ok,
  upsert-eq-ok,
}
use inventory_service.Consistency.Schema.{IsIntact, IsPlaced, replace-All}

-- A command that was applied is for a warehouse that exists.
run-IsPlaced :
    (env : Env) (m : Movement) (apply : Db → Result Db) (db now : Db)
    → run env m apply db ≡ (ok true, now)
    → IsPlaced db.warehouses m.warehouse_id
unfolding run claim_and_apply claim_command transact
run-IsPlaced env m apply db now h = ground arith

module _ (env : Env) (cmd : StockCommand) (db db' : Db)
    (at : IsPlaced db.warehouses cmd.warehouse_id) (i : IsIntact db) where
  -- The rows of balances may change, as long as each of them is placed.
  rebalanced :
      (bs : List Balance)
      → All (λ (b : Balance). IsPlaced db.warehouses b.warehouse_id) bs
      → db' ≡ record db { balances = bs }
      → IsIntact db'
  rebalanced bs placed same = rw same (record {
    ids = i.ids;
    references = i.references;
    lines = i.lines;
    quantities = i.quantities;
    lines_placed = i.lines_placed;
    balances_placed = placed;
    movements_placed = i.movements_placed;
  })

  Rewrites-IsIntact :
      (set : Balance → Result Balance)
      → ((b b' : Balance) → set b ≡ ok b' → b'.warehouse_id ≡ b.warehouse_id)
      → Rewrites env cmd db db' set
      → IsIntact db'
  Rewrites-IsIntact set sets (b, b', f, e, same) =
      let (_, same_warehouse) = find-HasKey cmd.sku_id cmd.warehouse_id {b = b} db.balances f in
      rebalanced _
        (replace-All (λ (c : Balance). IsPlaced db.warehouses c.warehouse_id) cmd.sku_id
          cmd.warehouse_id b' db.balances (rw (sets b b' e, same_warehouse) at) i.balances_placed)
        same

  write-IsIntact : (op : Operation) → write op env cmd db ≡ ok db' → IsIntact db'
  write-IsIntact receipt h = elim (upsert-eq-ok env cmd db db' h) [
    | inl (f, _, e) ↦ rebalanced _ (at, i.balances_placed) e
    | inr found ↦
        Rewrites-IsIntact (add_on_hand env.now cmd.quantity)
          (λ b b' e. (add_on_hand-eq-ok env.now cmd.quantity b {b' = b'} e).4) found
  ]
  write-IsIntact adjustment h =
      Rewrites-IsIntact (add_on_hand env.now cmd.quantity)
        (λ b b' e. (add_on_hand-eq-ok env.now cmd.quantity b {b' = b'} e).4)
        (apply_adjust-eq-ok env cmd db db' h)
  write-IsIntact safety_change h =
      Rewrites-IsIntact (put_safety_stock env.now cmd.quantity)
        (λ b b' e. (put_safety_stock-eq-ok env.now cmd.quantity b {b' = b'} e).4)
        (apply_safety_stock-eq-ok env cmd db db' h)

warehouse-intended :
    (op : Operation) (env : Env) (cmd : StockCommand)
    → (intended op env cmd).warehouse_id ≡ cmd.warehouse_id
warehouse-intended receipt env cmd = refl
warehouse-intended adjustment env cmd = refl
warehouse-intended safety_change env cmd = refl

execute-IsPlaced :
    (op : Operation) (env : Env) (cmd : StockCommand) (db now : Db)
    → execute op env cmd db ≡ (ok true, now)
    → IsPlaced db.warehouses (intended op env cmd).warehouse_id
execute-IsPlaced op env cmd db now h =
    checked_cases
      (λ r. r ≡ (ok true, now) → IsPlaced db.warehouses (intended op env cmd).warehouse_id)
      (guards op cmd) db (run env (intended op env cmd) (write op env cmd) db)
      (λ e k. absurd (ground arith))
      (λ g k. run-IsPlaced env (intended op env cmd) (write op env cmd) db now k)
      (sym (execute_lem op env cmd db) ∙ h)

pub execute-IsIntact :
    (op : Operation) (env : Env) (cmd : StockCommand) (db : Db)
    → IsIntact db
    → IsIntact (execute op env cmd db).1
execute-IsIntact op env cmd db i =
    execute_cases (λ r. execute op env cmd db ≡ r → IsIntact r.1) op env cmd db (λ e k. i) (λ k. i)
      (λ db' g c f applied k.
        let at = execute-IsPlaced op env cmd db db' k in
        write-IsIntact env cmd (Runs.claimed (intended op env cmd) db) db'
          (rw (← warehouse-intended op env cmd) at)
          (record {
            ids = i.ids;
            references = i.references;
            lines = i.lines;
            quantities = i.quantities;
            lines_placed = i.lines_placed;
            balances_placed = i.balances_placed;
            movements_placed = (at, i.movements_placed);
          })
          op applied)
      refl
