-- ===== src/Consistency/Stocking.antt =====
-- The stock commands leave what is reserved alone.
use inventory_service.Base.{
  GoString, ℤ, pos, ◌+ℤ◌, ◌≡◌, refl, ◌∙◌, arith, int_laws, inl, inr, add-zero_ℤ,
}
use inventory_service.Domain.Types.{StockCommand}
use inventory_service.Domain.Errors.{Result, ok}
use inventory_service.Store.Rows.{Balance}
use inventory_service.Store.Balances.{find, HasKey, find-HasKey}
use inventory_service.Store.Database.{Db, Env}
use inventory_service.Store.Ledger.{reserved_at, reserved_at-replace, moved}
use inventory_service.Store.Valid.{IsStocked}
use inventory_service.Stock.Commands.{
  Operation, receipt, adjustment, safety_change, execute, intended, write, add_on_hand,
  put_safety_stock,
}
use inventory_service.Stock.Runs.{claimed, execute_cases}
use inventory_service.Stock.Effects.{
  Rewrites, add_on_hand-eq-ok, put_safety_stock-eq-ok, apply_adjust-eq-ok, apply_safety_stock-eq-ok,
  upsert-eq-ok,
}
use inventory_service.Stock.Valid.{execute-IsStocked}
use inventory_service.Consistency.Defs.{IsConsistent}

-- What a write leaves as it was.
pub record Leaves (db db' : Db) : Type 0 where
  pub reservations : db'.reservations ≡ db.reservations
  pub lines : db'.lines ≡ db.lines
  pub reserved : (s : GoString) (w : ℤ) → reserved_at s w db'.balances ≡ reserved_at s w db.balances

module _ (env : Env) (cmd : StockCommand) (db db' : Db) where
  Rewrites-Leaves :
      (set : Balance → Result Balance)
      → ((b b' : Balance)
          → set b ≡ ok b'
          → (b'.reserved ≡ b.reserved)
            × (b'.sku_id ≡ b.sku_id)
            × (b'.warehouse_id ≡ b.warehouse_id))
      → Rewrites env cmd db db' set
      → Leaves db db'
  Rewrites-Leaves set sets (b, b', f, e, same) =
      let (er, es, ew) = sets b b' e in
      let (same_sku, same_warehouse) =
        find-HasKey cmd.sku_id cmd.warehouse_id {b = b} db.balances f in
      let key : HasKey cmd.sku_id cmd.warehouse_id b' = (es ∙ same_sku, ew ∙ same_warehouse) in
      rw same (record {
        reservations = refl;
        lines = refl;
        reserved = λ s w.
            reserved_at-replace s w cmd.sku_id cmd.warehouse_id b b' (pos 0) db.balances f key
              (er ∙ add-zero_ℤ b.reserved)
            ∙ unmoved s w;
      })
    where
      unmoved :
          (s : GoString) (w : ℤ)
          → reserved_at s w db.balances +ℤ moved s w cmd.sku_id cmd.warehouse_id (pos 0)
            ≡ reserved_at s w db.balances
      unmoved s w = grind int_laws

  pub write-Leaves : (op : Operation) → write op env cmd db ≡ ok db' → Leaves db db'
  unfolding find
  write-Leaves receipt h = elim (upsert-eq-ok env cmd db db' h) [
    | inl (f, _, e) ↦
        rw e (record { reservations = refl; lines = refl; reserved = λ s w. grind arith })
    | inr found ↦
        Rewrites-Leaves (add_on_hand env.now cmd.quantity)
          (λ b b' e.
            let (_, er, _, es, ew, _) = add_on_hand-eq-ok env.now cmd.quantity b {b' = b'} e in
            (er, es, ew))
          found
  ]
  write-Leaves adjustment h =
      Rewrites-Leaves (add_on_hand env.now cmd.quantity)
        (λ b b' e.
          let (_, er, _, es, ew, _) = add_on_hand-eq-ok env.now cmd.quantity b {b' = b'} e in
          (er, es, ew))
        (apply_adjust-eq-ok env cmd db db' h)
  write-Leaves safety_change h =
      Rewrites-Leaves (put_safety_stock env.now cmd.quantity)
        (λ b b' e.
          let (_, er, _, es, ew, _) = put_safety_stock-eq-ok env.now cmd.quantity b {b' = b'} e in
          (er, es, ew))
        (apply_safety_stock-eq-ok env cmd db db' h)

-- From a consistent store a stock command leads to a consistent one, however it ends: for every SKU in every warehouse `reserved` is still what the open
-- reservations hold.
pub execute-IsConsistent :
    (op : Operation) (env : Env) (cmd : StockCommand) (db : Db)
    → IsConsistent db
    → IsConsistent (execute op env cmd db).1
execute-IsConsistent op env cmd db c =
    let stocked = execute-IsStocked op env cmd db c.stocked in
    execute_cases (λ r. ((IsStocked r.1) → IsConsistent r.1)) op env cmd db (λ e k. c) (λ k. c)
      (λ db' g m f applied k.
        let same = write-Leaves env cmd (claimed (intended op env cmd) db) db' op applied in
        record {
          stocked = k;
          known = rw (same.reservations, same.lines) c.known;
          held = λ s w. rw (same.reservations, same.lines) (same.reserved s w ∙ c.held s w);
        })
      stocked
