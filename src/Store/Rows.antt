-- ===== src/Store/Rows.antt =====
-- The tables of db/migrations/sql/000002_inventory_schema.up.sql and 000003: their rows, and what
-- the column types and CHECKs refuse. A status text that its CHECK admits is an enumeration, an
-- instant is a number, and a VARCHAR(n) is measured in bytes (the identifiers are ASCII).
use inventory_service.Base.{
  ℕ, GoString, ℤ, pos, ◌+ℤ◌, ◌-ℤ◌, leb_ℤ, leb, is_int64, Bool, Option, length, if◌then◌else◌,
}
use inventory_service.Domain.Types.{Status, MovementType}
use inventory_service.Domain.Errors.{
  Result, ok, err, pg, check_violation, out_of_range, string_too_long, require, ◌>>◌,
}

pub record Warehouse : Type 0 where
  pub id : ℤ
  pub is_active : Bool

pub record Balance : Type 0 where
  pub sku_id : GoString
  pub warehouse_id : ℤ
  pub on_hand : ℤ
  pub reserved : ℤ
  pub safety_stock : ℤ
  pub version : ℤ
  pub updated_at : ℕ

pub record Header : Type 0 where
  pub id : GoString
  pub external_reference : GoString
  pub request_hash : GoString
  pub status : Status
  pub expires_at : Option ℕ
  pub created_at : ℕ
  pub updated_at : ℕ

pub record ReservationLine : Type 0 where
  pub reservation_id : GoString
  pub sku_id : GoString
  pub warehouse_id : ℤ
  pub quantity : ℤ

-- `id` is left out: it counts up, and the list holds the newest row first.
pub record Movement : Type 0 where
  pub command_id : GoString
  pub sku_id : GoString
  pub warehouse_id : ℤ
  pub type : MovementType
  pub on_hand_delta : ℤ
  pub reserved_delta : ℤ
  pub reference_type : GoString
  pub reference_id : Option GoString
  pub reason : Option GoString
  pub actor : Option GoString
  pub created_at : ℕ

-- `a + b` and `a - b` on BIGINT
unfoldable pub bigint_add : ℤ → ℤ → Result ℤ
bigint_add a b = let s = a +ℤ b in if is_int64 s then ok s else err (pg out_of_range)

unfoldable pub bigint_sub : ℤ → ℤ → Result ℤ
bigint_sub a b = let s = a -ℤ b in if is_int64 s then ok s else err (pg out_of_range)

-- A value stored into a VARCHAR(n) column.
abbrev pub varchar : ℕ → GoString → Result (Unit {0})
varchar n s = require (leb (length s) n) (pg string_too_long)

-- The CHECKs of inventory_balances.
unfoldable pub check_balance : Balance → Result Balance
check_balance b = do
  require (leb_ℤ (pos 0) b.on_hand) (pg check_violation)
  require (leb_ℤ (pos 0) b.reserved) (pg check_violation)
  require (leb_ℤ (pos 0) b.safety_stock) (pg check_violation)
  require (leb_ℤ b.reserved b.on_hand) (pg check_violation)
  ok b
