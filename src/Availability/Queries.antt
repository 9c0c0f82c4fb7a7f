-- ===== src/Availability/Queries.antt =====
-- internal/core/repository/availability.go: BatchATP, ActiveWarehouseBalances and TrackedSKUs.
use inventory_service.Base.{
  GoString, text_eq, text_elem, ℤ, ◌+ℤ◌, is_int64, Bool, ◌&&◌, if◌then◌else◌, none, List, [], ◌∷◌,
}
use inventory_service.Domain.Errors.{Result, ok, err, pg, out_of_range, ◌>>=◌}
use inventory_service.Store.Rows.{Balance}
use inventory_service.Store.Database.{Db}
use inventory_service.Store.Atp.{
  atp, AtpMap, put, active_ids, snapshot_rows, fill_by_warehouse, is_tracked,
}

-- A row of `SELECT sku_id, SUM(…) … GROUP BY sku_id`
pub record Total : Type 0 where
  pub sku_id : GoString
  pub sum : ℤ

unfoldable pub add_to_group : GoString → ℤ → List Total → List Total
add_to_group s n [] = record { sku_id = s; sum = n } ∷ []
add_to_group s n (t ∷ ts) =
    if text_eq t.sku_id s then record t { sum = n +ℤ t.sum } ∷ ts else t ∷ add_to_group s n ts

-- The sum of BIGINTs is NUMERIC, and does not overflow.
unfoldable pub group_rows : List Balance → List Total
group_rows [] = []
group_rows (b ∷ bs) = add_to_group b.sku_id (atp b) (group_rows bs)

-- `::bigint`
unfoldable pub cast_totals : List Total → Result (List Total)
cast_totals [] = ok []
cast_totals (t ∷ ts) = do
  rest ← cast_totals ts
  (if is_int64 t.sum then ok (t ∷ rest) else err (pg out_of_range))

-- `for rows.Next() { … atp[skuID] = n }`
unfoldable pub fill_totals : AtpMap → List Total → AtpMap
fill_totals m [] = m
fill_totals m (t ∷ ts) = fill_totals (put t.sku_id t.sum m) ts

-- Each query fails, or sees a committed state of its own.
pub record Reads : Type 0 where
  pub totals : Result Db
  pub ids : Result Db
  pub rows : Result Db
  pub tracked : Result Db

-- Every query sees the same state.
abbrev pub steady : Db → Reads
steady db = record { totals = ok db; ids = ok db; rows = ok db; tracked = ok db }

unfoldable pub batch_atp : Reads → List GoString → Result AtpMap
batch_atp reads skus = do
  db ← reads.totals
  totals ← cast_totals (group_rows (snapshot_rows db.warehouses skus db.balances))
  ok (fill_totals (λ s. none) totals)

unfoldable pub active_warehouse_balances : Reads → List GoString → Result ((ℤ → AtpMap) × List ℤ)
active_warehouse_balances reads skus = do
  first ← reads.ids
  second ← reads.rows
  ok (
    fill_by_warehouse (λ w s. none) (snapshot_rows second.warehouses skus second.balances),
    active_ids first.warehouses,
  )

-- map[string]bool of the requested SKUs that have a row in any warehouse.
unfoldable pub tracked_skus : Reads → List GoString → Result (GoString → Bool)
tracked_skus reads skus = do
  db ← reads.tracked
  ok (λ s. text_elem s skus && is_tracked db.balances s)
