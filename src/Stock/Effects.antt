-- ===== src/Stock/Effects.antt =====
-- What the write of each stock command does to one SKU in one warehouse.
use inventory_service.Base.{ℕ, ℤ, ◌+ℤ◌, ◌≡◌, none, some, ◌∷◌, arith, inl, inr, ◌⊎◌, Option-cases}
use inventory_service.Domain.Types.{StockCommand}
use inventory_service.Domain.Errors.{Result, ok, Result-cases, on_error, ◌>>=◌}
use inventory_service.Store.Rows.{Balance, bigint_add, check_balance}
use inventory_service.Store.Balances.{find, update_cases, replace}
use inventory_service.Store.Database.{Db, Env}
use inventory_service.Store.Valid.{IsChecked}
use inventory_service.Stock.Commands.{
  upsert, apply_adjust, apply_safety_stock, add_on_hand, put_safety_stock, first_balance, some_row,
  check_violation_error,
}

-- A row that add_on_hand writes.
pub add_on_hand-eq-ok :
    (now : ℕ) (q : ℤ) (b : Balance) {b' : Balance}
    → add_on_hand now q b ≡ ok b'
    → (b'.on_hand ≡ b.on_hand +ℤ q)
      × (b'.reserved ≡ b.reserved)
      × (b'.safety_stock ≡ b.safety_stock)
      × (b'.sku_id ≡ b.sku_id)
      × (b'.warehouse_id ≡ b.warehouse_id)
      × IsChecked b'
unfolding add_on_hand bigint_add check_balance
add_on_hand-eq-ok now q b h = ground arith

-- A row that put_safety_stock writes.
pub put_safety_stock-eq-ok :
    (now : ℕ) (q : ℤ) (b : Balance) {b' : Balance}
    → put_safety_stock now q b ≡ ok b'
    → (b'.on_hand ≡ b.on_hand)
      × (b'.reserved ≡ b.reserved)
      × (b'.safety_stock ≡ q)
      × (b'.sku_id ≡ b.sku_id)
      × (b'.warehouse_id ≡ b.warehouse_id)
      × IsChecked b'
unfolding put_safety_stock bigint_add check_balance
put_safety_stock-eq-ok now q b h = ground arith

module _ (env : Env) (cmd : StockCommand) (db db' : Db) where
  abbrev pub Rewrites : (Balance → Result Balance) → Type 0
  Rewrites set =
      (b : Balance) × (b' : Balance) × (find cmd.sku_id cmd.warehouse_id db.balances ≡ some b)
      × (set b ≡ ok b')
      × (db' ≡ record db { balances = replace cmd.sku_id cmd.warehouse_id b' db.balances })

  pub apply_adjust-eq-ok :
      apply_adjust env cmd db ≡ ok db' → Rewrites (add_on_hand env.now cmd.quantity)
  unfolding apply_adjust
  apply_adjust-eq-ok =
      update_cases
        (λ r.
          (on_error check_violation_error r >>= some_row db) ≡ ok db'
          → Rewrites (add_on_hand env.now cmd.quantity))
        (add_on_hand env.now cmd.quantity) cmd.sku_id cmd.warehouse_id db.balances (λ e h. cc)
        (λ f h. cc) (λ b b' f e h. (b, b', f, e, cc))

  pub apply_safety_stock-eq-ok :
      apply_safety_stock env cmd db ≡ ok db' → Rewrites (put_safety_stock env.now cmd.quantity)
  unfolding apply_safety_stock
  apply_safety_stock-eq-ok =
      update_cases
        (λ r. (r >>= some_row db) ≡ ok db' → Rewrites (put_safety_stock env.now cmd.quantity))
        (put_safety_stock env.now cmd.quantity) cmd.sku_id cmd.warehouse_id db.balances (λ e h. cc)
        (λ f h. cc) (λ b b' f e h. (b, b', f, e, cc))

  -- A receipt adds the first row of its key, or adds to the row that there is.
  pub upsert-eq-ok :
      upsert env cmd db ≡ ok db'
      → ((find cmd.sku_id cmd.warehouse_id db.balances ≡ none)
          × IsChecked (first_balance env cmd)
          × (db' ≡ record db { balances = first_balance env cmd ∷ db.balances }))
        ⊎ Rewrites (add_on_hand env.now cmd.quantity)
  unfolding upsert check_balance
  upsert-eq-ok h = elim (Option-cases (find cmd.sku_id cmd.warehouse_id db.balances)) [
    | inl f ↦ inl (f, ground arith, ground arith)
    | inr (b, f) ↦ elim (Result-cases (add_on_hand env.now cmd.quantity b)) [
      | inl (b', e) ↦ inr (b, b', f, e, ground arith)
      | inr (e, x) ↦ absurd (ground arith)
    ]
  ]
