-- ===== src/Store/Atp.antt =====
-- Available-to-promise as the queries derive it, and the Go maps that the row loops fill.
use inventory_service.Base.{
  GoString, text_eq, text_elem, ℤ, pos, ◌-ℤ◌, ltb_ℤ, leb_ℤ, int_eq, Bool, true, false, ◌&&◌, ◌||◌,
  if◌then◌else◌, Option, none, some, List, [], ◌∷◌, keep,
}
use inventory_service.Domain.Types.{Line}
use inventory_service.Store.Rows.{Balance, Warehouse}

-- GREATEST(0, on_hand - reserved - safety_stock); the CHECKs keep the differences within BIGINT.
unfoldable pub atp : Balance → ℤ
atp b =
    let free = b.on_hand -ℤ b.reserved -ℤ b.safety_stock in
    if ltb_ℤ free (pos 0) then pos 0 else free

-- map[string]int64. A key that is missing reads as 0.
abbrev pub AtpMap : Type 0
AtpMap = GoString → Option ℤ

abbrev pub or_zero : Option ℤ → ℤ
or_zero none = pos 0
or_zero (some n) = n

unfoldable pub put : GoString → ℤ → AtpMap → AtpMap
put s n m t = if text_eq s t then some n else m t

-- map[int64]map[string]int64. A warehouse that is missing reads as the nil map.
unfoldable pub put_in : ℤ → GoString → ℤ → (ℤ → AtpMap) → ℤ → AtpMap
unfolding put
put_in w s n m v = if int_eq w v then put s n (m w) else m v

-- `SELECT id FROM warehouses WHERE status = 'active' ORDER BY id`
unfoldable pub place_id : ℤ → List ℤ → List ℤ
place_id i [] = i ∷ []
place_id i (j ∷ js) = if leb_ℤ i j then i ∷ j ∷ js else j ∷ place_id i js

unfoldable pub active_ids : List Warehouse → List ℤ
active_ids [] = []
active_ids (h ∷ hs) = let rest = active_ids hs in if h.is_active then place_id h.id rest else rest

-- `JOIN warehouses w ON w.id = b.warehouse_id AND w.status = 'active'`
unfoldable pub is_active : List Warehouse → ℤ → Bool
is_active [] w = false
is_active (h ∷ hs) w = if int_eq h.id w && h.is_active then true else is_active hs w

-- The rows that the query of the per-warehouse snapshot returns.
unfoldable pub snapshot_rows : List Warehouse → List GoString → List Balance → List Balance
snapshot_rows hs skus = keep (λ b. is_active hs b.warehouse_id && text_elem b.sku_id skus)

-- `for rows.Next() { … byWarehouse[wh][sku] = atp }`
unfoldable pub fill_by_warehouse : (ℤ → AtpMap) → List Balance → ℤ → AtpMap
fill_by_warehouse m [] = m
fill_by_warehouse m (b ∷ bs) = fill_by_warehouse (put_in b.warehouse_id b.sku_id (atp b) m) bs

-- `for rows.Next() { … atp[sku] = n }`
unfoldable pub fill : AtpMap → List Balance → AtpMap
fill m [] = m
fill m (b ∷ bs) = fill (put b.sku_id (atp b) m) bs

-- The rows that a SKU has in any warehouse: `SELECT DISTINCT sku_id FROM inventory_balances`
unfoldable pub is_tracked : List Balance → GoString → Bool
is_tracked [] s = false
is_tracked (b ∷ bs) s = text_eq b.sku_id s || is_tracked bs s

-- skuIDsOf
unfoldable pub sku_ids_of : List Line → List GoString
sku_ids_of [] = []
sku_ids_of (it ∷ items) = it.sku_id ∷ sku_ids_of items
