-- ===== src/Domain/Types.antt =====
-- internal/core/domain: the commands, lines, results and enumerations. The statuses and movement
-- types are enumerations, since the schema's CHECKs admit no other text.
use inventory_service.Base.{GoString, ℤ, Bool, List}

-- `inventory_reservations.status`
pub data Status : Type 0 where
  reserved committed released expired : Status

-- `inventory_movements.type`; RETURN is in the vocabulary and no operation writes it.
pub data MovementType : Type 0 where
  receive adjust set_safety_stock reserve release sale_committed return_stock : MovementType

pub record Line : Type 0 where
  pub sku_id : GoString
  pub quantity : ℤ

pub record Shortage : Type 0 where
  pub sku_id : GoString
  pub requested : ℤ
  pub atp : ℤ

pub record Allocation : Type 0 where
  pub sku_id : GoString
  pub warehouse_id : ℤ
  pub quantity : ℤ

pub record ReservationRequest : Type 0 where
  pub id : GoString
  pub order_id : GoString
  pub items : List Line
  pub destination_region : GoString
  pub expires_at : GoString

pub record ReservationResult : Type 0 where
  pub id : GoString
  pub status : Status
  pub allocations : List Allocation
  pub replayed : Bool

-- What GetReservation returns; instants are texts.
pub record Reservation : Type 0 where
  pub id : GoString
  pub order_id : GoString
  pub status : Status
  pub allocations : List Allocation
  pub created_at : GoString
  pub updated_at : GoString
  pub expires_at : GoString

pub record StockCommand : Type 0 where
  pub command_id : GoString
  pub sku_id : GoString
  pub warehouse_id : ℤ
  pub quantity : ℤ
  pub reason : GoString
  pub actor : GoString
