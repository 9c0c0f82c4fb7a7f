-- ===== src/Admin/Views.antt =====
-- internal/core/domain/admin_views.go. An instant is left as a number: the repository writes it as
-- an RFC-3339 text, and the handlers pass it on.
use inventory_service.Base.{ℕ, GoString, ℤ, Bool, Option}
use inventory_service.Domain.Types.{MovementType, Status}

pub record BalanceView : Type 0 where
  pub sku_id : GoString
  pub warehouse_id : ℤ
  pub on_hand : ℤ
  pub reserved : ℤ
  pub safety_stock : ℤ
  pub atp : ℤ
  pub updated_at : ℕ

-- An empty SKU, a warehouse that is not positive, and `false` filter nothing.
pub record BalanceFilter : Type 0 where
  pub sku_id : GoString
  pub warehouse_id : ℤ
  pub low_stock_only : Bool

-- The identity column is left out, as in the table.
pub record MovementView : Type 0 where
  pub command_id : GoString
  pub sku_id : GoString
  pub warehouse_id : ℤ
  pub type : MovementType
  pub on_hand_delta : ℤ
  pub reserved_delta : ℤ
  pub reference_type : GoString
  pub reference_id : GoString
  pub reason : GoString
  pub actor : GoString
  pub created_at : ℕ

pub record MovementFilter : Type 0 where
  pub sku_id : GoString
  pub warehouse_id : ℤ

pub record ReservationView : Type 0 where
  pub id : GoString
  pub order_id : GoString
  pub status : Status
  pub expires_at : Option ℕ
  pub created_at : ℕ
  pub updated_at : ℕ
