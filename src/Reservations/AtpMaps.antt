-- ===== src/Reservations/AtpMaps.antt =====
-- What the Go maps hold after the row loops: the ATP of the row under the key.
use inventory_service.Base.{
  GoString, text_elem, ℤ, ◌≡◌, ◌&&◌, if◌then◌else◌, Option, none, some, List, [], ◌∷◌, arith,
}
use inventory_service.Store.Rows.{Balance, Warehouse}
use inventory_service.Store.Balances.{find, IsKeyed}
use inventory_service.Store.Atp.{
  atp, AtpMap, put, put_in, fill, fill_by_warehouse, snapshot_rows, is_active,
}
use inventory_service.Reservations.Allocate.{locked_rows}

-- The entry of a row, or what was there before.
abbrev pub entry : Option Balance → Option ℤ → Option ℤ
entry none old = old
entry (some b) old = some (atp b)

-- The map of the locking read: the requested SKUs that have a row in the warehouse.
pub fill-locked_rows :
    (w : ℤ) (skus : List GoString) (s : GoString) (m : AtpMap) (bs : List Balance)
    → IsKeyed bs
    → fill m (locked_rows w skus bs) s
      ≡ (if text_elem s skus then entry (find s w bs) (m s) else m s)
unfolding fill locked_rows find put
fill-locked_rows w skus s m [] h = ground arith
fill-locked_rows w skus s m (b ∷ bs) h = ground (
  arith,
  fill-locked_rows w skus s m bs h.1,
  fill-locked_rows w skus s (put b.sku_id (atp b) m) bs h.1,
)

-- The map of the snapshot: the requested SKUs that have a row in the warehouse, if it is active.
pub fill-snapshot_rows :
    (hs : List Warehouse) (skus : List GoString) (w : ℤ) (s : GoString) (m : ℤ → AtpMap)
    (bs : List Balance)
    → IsKeyed bs
    → fill_by_warehouse m (snapshot_rows hs skus bs) w s
      ≡ (if is_active hs w && text_elem s skus then entry (find s w bs) (m w s) else m w s)
unfolding fill_by_warehouse snapshot_rows find put put_in
fill-snapshot_rows hs skus w s m [] h = ground arith
fill-snapshot_rows hs skus w s m (b ∷ bs) h = ground (
  arith,
  fill-snapshot_rows hs skus w s m bs h.1,
  fill-snapshot_rows hs skus w s (put_in b.warehouse_id b.sku_id (atp b) m) bs h.1,
)
