-- ===== src/Transport/Wire.antt =====
-- The wire contract: codes and reasons of the errors, and the messages. The texts of errors are left
-- out.
use inventory_service.Base.{GoString, ℤ, List}
use inventory_service.Domain.Types.{Status, reserved, committed, released, expired, Line}
use inventory_service.Domain.Errors.{
  Error, insufficient_stock, unknown_sku, idempotency_conflict, invalid_transition,
  reservation_not_found, concurrency_conflict, canceled,
}

pub data Code : Type 0 where
  invalid_argument failed_precondition already_exists not_found aborted unavailable cancelled : Code

pub data Reason : Type 0 where
  validation_error sku_not_found reason_insufficient_stock reason_idempotency_conflict : Reason
  reason_invalid_transition reason_not_found reason_concurrency_conflict : Reason
  dependency_unavailable no_reason : Reason

pub record WireError : Type 0 where
  pub code : Code
  pub reason : Reason

pub data Reply (A : Type 0) : Type 0 where
  reply : A → Reply A
  refused : WireError → Reply A

abbrev pub wire : Code → Reason → WireError
wire code reason = record { code = code; reason = reason }

abbrev pub invalid : WireError
invalid = wire invalid_argument validation_error

-- failClosed
unfoldable pub fail_closed : Error → WireError
fail_closed canceled = wire cancelled no_reason
fail_closed e = wire unavailable dependency_unavailable

-- reservationError
unfoldable pub reservation_error : Error → WireError
unfolding fail_closed
reservation_error (unknown_sku skus) = wire failed_precondition sku_not_found
reservation_error (insufficient_stock short) = wire failed_precondition reason_insufficient_stock
reservation_error idempotency_conflict = wire already_exists reason_idempotency_conflict
reservation_error invalid_transition = wire failed_precondition reason_invalid_transition
reservation_error reservation_not_found = wire not_found reason_not_found
reservation_error concurrency_conflict = wire aborted reason_concurrency_conflict
reservation_error e = fail_closed e

pub data ProtoStatus : Type 0 where
  unspecified proto_reserved proto_committed proto_released proto_expired : ProtoStatus

-- toProtoReservationStatus. No other status is stored, so none is UNSPECIFIED.
unfoldable pub to_proto_status : Status → ProtoStatus
to_proto_status reserved = proto_reserved
to_proto_status committed = proto_committed
to_proto_status released = proto_released
to_proto_status expired = proto_expired

pub record ReserveMessage : Type 0 where
  pub reservation_id : GoString
  pub order_id : GoString
  pub items : List Line
  pub destination_region : GoString
  pub expires_at : GoString
  pub request_hash : GoString

pub record WireAllocation : Type 0 where
  pub sku_id : GoString
  pub warehouse_id : GoString
  pub quantity : ℤ

pub record ReserveReply : Type 0 where
  pub reservation_id : GoString
  pub status : ProtoStatus
  pub allocations : List WireAllocation

-- The response of Release and of Commit.
pub record StatusReply : Type 0 where
  pub reservation_id : GoString
  pub status : ProtoStatus

-- The reservation of GetReservation's response; instants are texts.
pub record WireReservation : Type 0 where
  pub id : GoString
  pub order_id : GoString
  pub status : ProtoStatus
  pub allocations : List WireAllocation
  pub created_at : GoString
  pub updated_at : GoString
  pub expires_at : GoString
