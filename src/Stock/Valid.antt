-- ===== src/Stock/Valid.antt =====
-- The schema's guarantees on balances and movements through the stock commands.
use inventory_service.Base.{◌≡◌, ◌∙◌, inl, inr}
use inventory_service.Domain.Types.{StockCommand}
use inventory_service.Domain.Errors.{Result, ok}
use inventory_service.Store.Rows.{Balance}
use inventory_service.Store.Balances.{HasKey, find-HasKey, replace-IsKeyed}
use inventory_service.Store.Database.{Db, Env}
use inventory_service.Store.Valid.{IsChecked, IsStocked, replace-IsChecked}
use inventory_service.Stock.Commands.{
  Operation, receipt, adjustment, safety_change, execute, intended, write, add_on_hand,
  put_safety_stock,
}
use inventory_service.Stock.Runs.{claimed, execute_cases, id-intended}
use inventory_service.Stock.Effects.{
  Rewrites, add_on_hand-eq-ok, put_safety_stock-eq-ok, apply_adjust-eq-ok, apply_safety_stock-eq-ok,
  upsert-eq-ok,
}

module _ (env : Env) (cmd : StockCommand) (db db' : Db) where
  Rewrites-IsStocked :
      (set : Balance → Result Balance)
      → ((b b' : Balance)
          → set b ≡ ok b'
          → (b'.sku_id ≡ b.sku_id) × (b'.warehouse_id ≡ b.warehouse_id) × IsChecked b')
      → IsStocked db
      → Rewrites env cmd db db' set
      → IsStocked db'
  Rewrites-IsStocked set sets h (b, b', f, e, same) =
      let (es, ew, fine) = sets b b' e in
      let (same_sku, same_warehouse) =
        find-HasKey cmd.sku_id cmd.warehouse_id {b = b} db.balances f in
      let key : HasKey cmd.sku_id cmd.warehouse_id b' = (es ∙ same_sku, ew ∙ same_warehouse) in
      rw same (record {
        checked = replace-IsChecked cmd.sku_id cmd.warehouse_id b' db.balances fine h.checked;
        keyed = replace-IsKeyed cmd.sku_id cmd.warehouse_id b' db.balances key h.keyed;
        unique = h.unique;
      })

  add_on_hand-sets :
      (b b' : Balance)
      → add_on_hand env.now cmd.quantity b ≡ ok b'
      → (b'.sku_id ≡ b.sku_id) × (b'.warehouse_id ≡ b.warehouse_id) × IsChecked b'
  add_on_hand-sets b b' e =
      let (_, _, _, es, ew, fine) = add_on_hand-eq-ok env.now cmd.quantity b {b' = b'} e in
      (es, ew, fine)

  put_safety_stock-sets :
      (b b' : Balance)
      → put_safety_stock env.now cmd.quantity b ≡ ok b'
      → (b'.sku_id ≡ b.sku_id) × (b'.warehouse_id ≡ b.warehouse_id) × IsChecked b'
  put_safety_stock-sets b b' e =
      let (_, _, _, es, ew, fine) = put_safety_stock-eq-ok env.now cmd.quantity b {b' = b'} e in
      (es, ew, fine)

  write-IsStocked : (op : Operation) → IsStocked db → write op env cmd db ≡ ok db' → IsStocked db'
  write-IsStocked receipt h applied = elim (upsert-eq-ok env cmd db db' applied) [
    | inl (f, fine, e) ↦
        rw e (record { checked = (fine, h.checked); keyed = (f, h.keyed); unique = h.unique })
    | inr found ↦ Rewrites-IsStocked (add_on_hand env.now cmd.quantity) add_on_hand-sets h found
  ]
  write-IsStocked adjustment h applied =
      Rewrites-IsStocked (add_on_hand env.now cmd.quantity) add_on_hand-sets h
        (apply_adjust-eq-ok env cmd db db' applied)
  write-IsStocked safety_change h applied =
      Rewrites-IsStocked (put_safety_stock env.now cmd.quantity) put_safety_stock-sets h
        (apply_safety_stock-eq-ok env cmd db db' applied)

-- A stock command keeps the CHECKs and the keys of balances and movements: nothing negative, no more reserved than on hand,
-- one balance to a SKU and warehouse, one movement to a command_id.
pub execute-IsStocked :
    (op : Operation) (env : Env) (cmd : StockCommand) (db : Db)
    → IsStocked db
    → IsStocked (execute op env cmd db).1
execute-IsStocked op env cmd db h =
    execute_cases (λ r. IsStocked r.1) op env cmd db (λ e. h) h
      λ db' _ _ f applied.
        write-IsStocked env cmd (claimed (intended op env cmd) db) db' op
          (record {
            checked = h.checked;
            keyed = h.keyed;
            unique = (rw (id-intended op env cmd) f, h.unique);
          })
          applied
