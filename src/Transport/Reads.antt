-- ===== src/Transport/Reads.antt =====
-- internal/grpc/v1/server.go: BatchGetAvailability and CheckAvailability over the service.
use inventory_service.Base.{
  GoString, ℤ, pos, ltb_ℤ, leb_ℤ, Bool, true, false, ◌&&◌, ◌||◌, if◌then◌else◌, leb, length, none,
  List, [], ◌∷◌, map,
}
use inventory_service.Domain.Types.{Line}
use inventory_service.Domain.Errors.{Result, ok, err, invalid_input}
use inventory_service.Domain.Aggregate.{Aggregation, aggregate}
use inventory_service.Availability.Service.{
  AvailabilityReader, AvailabilityStatus, unknown, in_stock, low_stock, out_of_stock,
  SkuAvailability, CheckResult, batch_get_availability, check_availability,
}
use inventory_service.Transport.Validate.{valid_sku_id}
use inventory_service.Transport.Wire.{Reply, reply, refused, invalid, fail_closed}

pub data ProtoAvailability : Type 0 where
  proto_unknown proto_in_stock proto_low_stock proto_out_of_stock : ProtoAvailability

-- toProtoStatus
unfoldable pub to_proto_availability : AvailabilityStatus → ProtoAvailability
to_proto_availability in_stock = proto_in_stock
to_proto_availability low_stock = proto_low_stock
to_proto_availability out_of_stock = proto_out_of_stock
to_proto_availability unknown = proto_unknown

pub record WireAvailability : Type 0 where
  pub sku_id : GoString
  pub status : ProtoAvailability
  pub available_to_promise : ℤ

abbrev pub wire_availability : SkuAvailability → WireAvailability
wire_availability a = record {
  sku_id = a.sku_id;
  status = to_proto_availability a.status;
  available_to_promise = a.atp;
}

unfoldable pub all_valid : List GoString → Bool
all_valid [] = true
all_valid (s ∷ ss) = if valid_sku_id s then all_valid ss else false

abbrev pub batch_reply : Result (List SkuAvailability) → Reply (List WireAvailability)
batch_reply (err e) = refused (fail_closed e)
batch_reply (ok answers) = reply (map wire_availability answers)

-- Server.BatchGetAvailability
unfoldable pub server_batch : AvailabilityReader → List GoString → Reply (List WireAvailability)
server_batch reader skus =
    if leb 1 (length skus) && leb (length skus) 200 && all_valid skus
    then batch_reply (batch_get_availability reader skus)
    else refused invalid

-- The loop of CheckAvailability, which checks each line and adds it to the line of its SKU.
unfoldable pub basket_all : List Line → Aggregation → Result (List Line)
basket_all [] a = ok a.out
basket_all (it ∷ items) a =
    if leb_ℤ it.quantity (pos 0) || ltb_ℤ (pos 10000) it.quantity
    then err invalid_input
    else if valid_sku_id it.sku_id
    then basket_all items (aggregate it a)
    else err invalid_input

unfoldable pub basket : List Line → Result (List Line)
basket items =
    if leb 1 (length items) && leb (length items) 100
    then basket_all items (record { out = []; index = λ s. none })
    else err invalid_input

-- The response has the fields of CheckResult.
abbrev pub check_reply : Result CheckResult → Reply CheckResult
check_reply (err e) = refused (fail_closed e)
check_reply (ok r) = reply r

-- Server.CheckAvailability
unfoldable pub server_check : AvailabilityReader → List Line → Reply CheckResult
server_check reader items = elim (basket items) [
  | err e ↦ refused invalid
  | ok lines ↦ check_reply (check_availability reader lines)
]
