-- ===== src/Stock/SafetyStock.antt =====
-- SetSafetyStock under a command_id that is already used.
use inventory_service.Base.{
  ℤ, pos, ◌≤ℤ◌, ◌≡◌, ◌≢◌, refl, ap, sym, ◌∙◌, Bool, true, false, none, some, Option, arith,
}
use inventory_service.Domain.Types.{StockCommand}
use inventory_service.Domain.Errors.{Result, ok}
use inventory_service.Domain.Validate.{validate}
use inventory_service.Store.Rows.{Balance}
use inventory_service.Store.Balances.{find, HasKey, find-HasKey, find-replace_self}
use inventory_service.Store.Movements.{check_movement}
use inventory_service.Store.Database.{Db, Env}
use inventory_service.Stock.Commands.{execute, safety_change, set_safety_stock, guards}
use inventory_service.Stock.Runs.{execute_cases}
use inventory_service.Stock.Effects.{apply_safety_stock-eq-ok, put_safety_stock-eq-ok}
use inventory_service.Stock.Replay.{execute_reused, Committed-execute}

abbrev pub level_of : Option Balance → Option ℤ
level_of none = none
level_of (some b) = some b.safety_stock

-- A committed SetSafetyStock has stored the level that it asked for.
level-execute :
    (env : Env) (cmd : StockCommand) (db db' : Db)
    → execute safety_change env cmd db ≡ (ok true, db')
    → level_of (find cmd.sku_id cmd.warehouse_id db'.balances) ≡ some cmd.quantity
level-execute env cmd db db' =
    execute_cases
      (λ r.
        r ≡ (ok true, db')
        → level_of (find cmd.sku_id cmd.warehouse_id db'.balances) ≡ some cmd.quantity)
      safety_change env cmd db (λ e h. cc) (λ h. cc)
      λ db1 g c f applied h.
        let (b, b', found, e, same) = apply_safety_stock-eq-ok env cmd _ db1 applied in
        let (_, _, level, es, ew, _) = put_safety_stock-eq-ok env.now cmd.quantity b {b' = b'} e in
        let (same_sku, same_warehouse) =
          find-HasKey cmd.sku_id cmd.warehouse_id {b = b} db.balances found in
        let key : HasKey cmd.sku_id cmd.warehouse_id b' = (es ∙ same_sku, ew ∙ same_warehouse) in
        rw
          (
            ← ap (λ (r : Result Bool × Db). r.1) h,
            same,
            find-replace_self cmd.sku_id cmd.warehouse_id b' {b = b} db.balances key found,
          )
          (ap some level)

guards-level :
    (cmd : StockCommand) (level : ℤ)
    → guards safety_change cmd ≡ ok tt
    → pos 0 ≤ℤ level
    → guards safety_change (record cmd { quantity = level }) ≡ ok tt
unfolding validate
guards-level cmd level h p = ground arith

-- The ledger does not record the level that SetSafetyStock asks for. So after one has committed,
-- another under its command_id that asks for any other level, and is otherwise alike, passes for a
-- replay once it can begin: it returns no error and changes nothing, and the level is still the
-- first one.
pub set_safety_stock_swallowed :
    (env env' : Env) (cmd : StockCommand) (level : ℤ) (db db' : Db)
    → set_safety_stock env cmd db ≡ (ok true, db')
    → pos 0 ≤ℤ level
    → level ≢ cmd.quantity
    → env'.begin ≡ none
    → (set_safety_stock env' (record cmd { quantity = level }) db' ≡ (ok false, db'))
      × (level_of (find cmd.sku_id cmd.warehouse_id db'.balances) ≢ some level)
unfolding execute
set_safety_stock_swallowed env env' cmd level db db' done h differs b =
    let prior = Committed-execute safety_change env cmd db db' done in
    let kept = level-execute env cmd db db' done in
    (
      (execute_reused safety_change safety_change env env' cmd (record cmd { quantity = level }) db
            db' done refl (guards-level cmd level prior.guarded h)
            (unfold check_movement in prior.storable) b).0
          (record {
            operation = refl;
            sku_id = refl;
            warehouse_id = refl;
            on_hand_delta = refl;
            actor = refl;
            reason = refl;
          }),
      (λ e. differs (cc (sym e ∙ kept))),
    )
