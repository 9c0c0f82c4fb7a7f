-- ===== src/Reservations/Allocate.antt =====
-- allocateReservation of internal/core/repository/reservations.go and what it calls.
use inventory_service.Base.{
  GoString, text_elem, ℤ, ltb_ℤ, int_eq, Bool, true, false, ◌&&◌, not, if◌then◌else◌, Option, none,
  some, List, [], ◌∷◌, keep,
}
use inventory_service.Domain.Types.{Line, Allocation, Shortage}
use inventory_service.Domain.Errors.{
  Error, Result, ok, err, pg, concurrency_conflict, serialization_failure, deadlock_detected,
  lock_not_available, insufficient_stock, unknown_sku, on_error, ◌>>=◌,
}
use inventory_service.Store.Rows.{Balance}
use inventory_service.Store.Database.{Db, Env, unless}
use inventory_service.Store.Atp.{
  AtpMap, or_zero, active_ids, snapshot_rows, fill_by_warehouse, fill, is_tracked, sku_ids_of,
}

-- translateConcurrency
unfoldable pub translate_concurrency : Error → Error
translate_concurrency (pg serialization_failure) = concurrency_conflict
translate_concurrency (pg deadlock_detected) = concurrency_conflict
translate_concurrency (pg lock_not_available) = concurrency_conflict
translate_concurrency e = e

-- activeATPSnapshot: the per-warehouse map. (`active_ids` is its other result.)
unfoldable pub active_atp_snapshot : Db → List Line → ℤ → AtpMap
active_atp_snapshot db items =
    fill_by_warehouse (λ w s. none) (snapshot_rows db.warehouses (sku_ids_of items) db.balances)

-- The rows that the locking read of one warehouse returns.
unfoldable pub locked_rows : ℤ → List GoString → List Balance → List Balance
locked_rows w skus = keep (λ b. int_eq b.warehouse_id w && text_elem b.sku_id skus)

-- lockWarehouseATP
unfoldable pub lock_warehouse_atp : Env → Db → ℤ → List Line → Result AtpMap
lock_warehouse_atp env db w items =
    on_error translate_concurrency
      (unless env.lock (ok (fill (λ s. none) (locked_rows w (sku_ids_of items) db.balances))))

-- fulfillsLines
unfoldable pub fulfills_lines : AtpMap → List Line → Bool
fulfills_lines m [] = true
fulfills_lines m (it ∷ items) =
    if ltb_ℤ (or_zero (m it.sku_id)) it.quantity then false else fulfills_lines m items

-- shortagesAgainst
unfoldable pub shortages_against : AtpMap → List Line → List Shortage
shortages_against m [] = []
shortages_against m (it ∷ items) =
    let atp = or_zero (m it.sku_id) in
    let rest = shortages_against m items in
    if ltb_ℤ atp it.quantity
    then record { sku_id = it.sku_id; requested = it.quantity; atp = atp } ∷ rest
    else rest

-- The ids among the requested ones that no balance row tracks.
unfoldable pub untracked : List Balance → List GoString → List GoString
untracked bs = keep (λ s. not (is_tracked bs s))

-- classifyReservationFailure
abbrev pub classified : List GoString → List Shortage → Error
classified [] short = insufficient_stock short
classified (s ∷ ss) short = unknown_sku (s ∷ ss)

unfoldable pub classify_reservation_failure : Db → List Line → List Shortage → Error
classify_reservation_failure db items short =
    classified (untracked db.balances (sku_ids_of items)) short

-- The scan for the first warehouse that fulfils every line.
unfoldable pub choose : (ℤ → AtpMap) → List ℤ → List Line → Option ℤ
choose by_warehouse [] items = none
choose by_warehouse (w ∷ ws) items =
    if fulfills_lines (by_warehouse w) items then some w else choose by_warehouse ws items

-- The map that the shortages of an unfulfillable basket are counted against.
unfoldable pub base_map : (ℤ → AtpMap) → List ℤ → AtpMap
base_map by_warehouse [] = λ s. none
base_map by_warehouse (w ∷ ws) = by_warehouse w

unfoldable pub allocations_in : ℤ → List Line → List Allocation
allocations_in w [] = []
allocations_in w (it ∷ items) =
    record { sku_id = it.sku_id; warehouse_id = w; quantity = it.quantity } ∷ allocations_in w items

-- The check under the locks.
abbrev pub gated : Db → List Line → ℤ → List Shortage → Result (List Allocation)
gated db items w [] = ok (allocations_in w items)
gated db items w (x ∷ xs) = err (classify_reservation_failure db items (x ∷ xs))

unfoldable pub allocate_in : Env → Db → List Line → ℤ → Result (List Allocation)
allocate_in env db items w = do
  locked ← lock_warehouse_atp env db w items
  gated db items w (shortages_against locked items)

-- allocateReservation. The scan reads `env.snapshot`, and all that follows reads `db`.
unfoldable pub allocate_reservation : Env → Db → List Line → Result (List Allocation)
allocate_reservation env db items =
    let by_warehouse = active_atp_snapshot env.snapshot items in
    let ids = active_ids env.snapshot.warehouses in
    elim (choose by_warehouse ids items) [
      | none ↦ err (
          classify_reservation_failure db items
            (shortages_against (base_map by_warehouse ids) items))
      | some w ↦ allocate_in env db items w
    ]
