-- ===== src/Store/Movements.antt =====
-- inventory_movements: the append-only ledger, newest row first.
use inventory_service.Base.{
  GoString, text_eq, ℤ, pos, ◌+ℤ◌, int_eq, Bool, true, false, ◌&&◌, if◌then◌else◌, Option, none,
  some, List, [], ◌∷◌,
}
use inventory_service.Domain.Errors.{
  Result, ok, err, pg, unique_violation, foreign_key_violation, ◌>>◌, require,
}
use inventory_service.Store.Rows.{Movement, Warehouse, varchar}

unfoldable pub find_command : GoString → List Movement → Option Movement
find_command c [] = none
find_command c (m ∷ ms) = if text_eq m.command_id c then some m else find_command c ms

-- `REFERENCES warehouses(id)`
unfoldable pub warehouse_exists : ℤ → List Warehouse → Bool
warehouse_exists w [] = false
warehouse_exists w (h ∷ hs) = if int_eq h.id w then true else warehouse_exists w hs

abbrev varchar_null : (GoString → Result (Unit {0})) → Option GoString → Result (Unit {0})
varchar_null check none = ok tt
varchar_null check (some s) = check s

-- The column types of a new row.
unfoldable pub check_movement : Movement → Result (Unit {0})
check_movement m = do
  varchar 255 m.command_id
  varchar 64 m.sku_id
  varchar 32 m.reference_type
  varchar_null (varchar 255) m.reference_id
  varchar_null (varchar 64) m.reason
  varchar_null (varchar 64) m.actor

abbrev pub reference : List Warehouse → ℤ → Result (Unit {0})
reference hs w = require (warehouse_exists w hs) (pg foreign_key_violation)

abbrev pub unused : Option Movement → Result (Unit {0})
unused none = ok tt
unused (some _) = err (pg unique_violation)

-- `INSERT INTO inventory_movements`
unfoldable pub insert : List Warehouse → Movement → List Movement → Result (List Movement)
insert hs m ms = do
  check_movement m
  unused (find_command m.command_id ms)
  reference hs m.warehouse_id
  ok (m ∷ ms)

-- The sum of on_hand_delta, and of reserved_delta, over the rows of a key.
abbrev pub at_key : GoString → ℤ → Movement → ℤ → ℤ
at_key s w m delta = if text_eq m.sku_id s && int_eq m.warehouse_id w then delta else pos 0

unfoldable pub ledger_on_hand : GoString → ℤ → List Movement → ℤ
ledger_on_hand s w [] = pos 0
ledger_on_hand s w (m ∷ ms) = at_key s w m m.on_hand_delta +ℤ ledger_on_hand s w ms

unfoldable pub ledger_reserved : GoString → ℤ → List Movement → ℤ
ledger_reserved s w [] = pos 0
ledger_reserved s w (m ∷ ms) = at_key s w m m.reserved_delta +ℤ ledger_reserved s w ms
