-- ===== src/Web/Wire.antt =====
-- What the handlers of internal/web/v1/router.go read and answer. The shared packages are not in
-- the repository: the page, its size and its offset (httpx), the token's subject (authmw), and the
-- bound body (gin) are arguments of the handlers. The texts of errors are left out. The JSON shapes
-- of rows are the views themselves.
use inventory_service.Base.{ℕ, GoString, ℤ, Bool, List}
use inventory_service.Domain.Errors.{
  Error, invalid_command, command_conflict, insufficient_on_hand, balance_not_found,
}

-- The codes of the error envelope.
pub data EnvelopeCode : Type 0 where
  code_unauthorized code_validation code_idempotency_conflict code_stock_unavailable : EnvelopeCode
  code_not_found code_internal : EnvelopeCode

-- A status with a body, or with an error.
pub data Response (A : Type 0) : Type 0 where
  json : ℕ → A → Response A
  respond_error : ℕ → EnvelopeCode → Response A

-- httpx.ParsePage and httpx.Offset.
pub record Paging : Type 0 where
  pub page : ℤ
  pub page_size : ℤ
  pub offset : ℤ → ℤ → ℤ

-- What httpx.NewPaginated is given.
pub record Paginated (A : Type 0) : Type 0 where
  pub items : List A
  pub page : ℤ
  pub page_size : ℤ
  pub total : ℕ

pub record ReceiptRequest : Type 0 where
  pub command_id : GoString
  pub sku_id : GoString
  pub warehouse_id : ℤ
  pub quantity : ℤ
  pub reason : GoString

pub record AdjustmentRequest : Type 0 where
  pub command_id : GoString
  pub sku_id : GoString
  pub warehouse_id : ℤ
  pub delta : ℤ
  pub reason : GoString

-- `gin.H{"command_id": …, "applied": …}`
pub record CommandReply : Type 0 where
  pub command_id : GoString
  pub applied : Bool

-- respondAdminError
unfoldable pub respond_admin_error : {A : Type 0} → Error → Response A
respond_admin_error invalid_command = respond_error 400 code_validation
respond_admin_error command_conflict = respond_error 409 code_idempotency_conflict
respond_admin_error insufficient_on_hand = respond_error 409 code_stock_unavailable
respond_admin_error balance_not_found = respond_error 404 code_not_found
respond_admin_error e = respond_error 500 code_internal
