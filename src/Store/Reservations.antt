-- ===== src/Store/Reservations.antt =====
-- inventory_reservations and inventory_reservation_lines.
use inventory_service.Base.{
  ℕ, GoString, text_eq, text_ltb, pos, ltb_ℤ, int_eq, Bool, true, false, ◌&&◌, not, if◌then◌else◌,
  Option, none, some, List, [], ◌∷◌,
}
use inventory_service.Domain.Types.{Status, Allocation}
use inventory_service.Domain.Errors.{
  Result, ok, pg, unique_violation, foreign_key_violation, check_violation, ◌>>◌, require,
}
use inventory_service.Store.Rows.{Header, ReservationLine, Warehouse, varchar}
use inventory_service.Store.Movements.{reference}

-- `WHERE id = i`
unfoldable pub find : GoString → List Header → Option Header
find i [] = none
find i (h ∷ hs) = if text_eq h.id i then some h else find i hs

-- `external_reference` is UNIQUE.
unfoldable pub find_reference : GoString → List Header → Option Header
find_reference r [] = none
find_reference r (h ∷ hs) = if text_eq h.external_reference r then some h else find_reference r hs

-- `UPDATE inventory_reservations SET status = s, updated_at = now() WHERE id = i`
unfoldable pub set_status : GoString → Status → ℕ → List Header → List Header
set_status i s now [] = []
set_status i s now (h ∷ hs) =
    if text_eq h.id i
    then record h { status = s; updated_at = now } ∷ hs
    else h ∷ set_status i s now hs

-- `PRIMARY KEY (reservation_id, sku_id)`
unfoldable pub has_line : GoString → GoString → List ReservationLine → Bool
has_line i s [] = false
has_line i s (l ∷ ls) =
    if text_eq l.reservation_id i && text_eq l.sku_id s then true else has_line i s ls

abbrev pub is_known : Option Header → Bool
is_known none = false
is_known (some _) = true

-- `INSERT INTO inventory_reservation_lines`
unfoldable pub insert_line :
    List Warehouse
    → List Header
    → ReservationLine
    → List ReservationLine
    → Result (List ReservationLine)
insert_line ws hs l ls = do
  varchar 255 l.reservation_id
  varchar 64 l.sku_id
  require (ltb_ℤ (pos 0) l.quantity) (pg check_violation)
  require (not (has_line l.reservation_id l.sku_id ls)) (pg unique_violation)
  require (is_known (find l.reservation_id hs)) (pg foreign_key_violation)
  reference ws l.warehouse_id
  ok (l ∷ ls)

-- `ORDER BY warehouse_id, sku_id`
abbrev pub goes_before : Allocation → Allocation → Bool
goes_before a b =
    if ltb_ℤ a.warehouse_id b.warehouse_id
    then true
    else if int_eq a.warehouse_id b.warehouse_id
    then not (text_ltb b.sku_id a.sku_id)
    else false

unfoldable pub place : Allocation → List Allocation → List Allocation
place a [] = a ∷ []
place a (b ∷ bs) = if goes_before a b then a ∷ b ∷ bs else b ∷ place a bs

unfoldable pub in_lock_order : List Allocation → List Allocation
in_lock_order [] = []
in_lock_order (a ∷ bs) = place a (in_lock_order bs)

abbrev pub allocation_of : ReservationLine → Allocation
allocation_of l = record { sku_id = l.sku_id; warehouse_id = l.warehouse_id; quantity = l.quantity }
