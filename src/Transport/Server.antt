-- ===== src/Transport/Server.antt =====
-- internal/grpc/v1/reservations.go over internal/logic/v1/reservations.go. Metrics, spans and logs
-- are left out: they decide nothing.
use inventory_service.Base.{
  ℕ, GoString, text_eq, pos, ltb_ℤ, leb_ℤ, Bool, true, ◌&&◌, ◌||◌, if◌then◌else◌, leb, length, List,
  [], ◌∷◌, map,
}
use inventory_service.Domain.Types.{
  Line, Allocation, ReservationRequest, ReservationResult, Reservation, Status,
}
use inventory_service.Domain.Errors.{Result, ok, err, invalid_input, require, ◌>>=◌, ◌>>◌}
use inventory_service.Domain.Aggregate.{aggregate_lines}
use inventory_service.Domain.Hash.{canonical_hash, format_int}
use inventory_service.Store.Database.{Db, Env, Runtime}
use inventory_service.Reservations.Reserve.{reserve}
use inventory_service.Reservations.Transition.{release, commit, get_reservation}
use inventory_service.Transport.Validate.{
  valid_sku_id, valid_reservation_id, valid_release_reason, valid_destination_region,
}
use inventory_service.Transport.Wire.{
  Reply, reply, refused, invalid, reservation_error, to_proto_status, ReserveMessage,
  WireAllocation, ReserveReply, StatusReply, WireReservation,
}

-- The round of reservationLines: the quantity, then the SKU.
unfoldable pub checked_lines : List Line → Result (List Line)
checked_lines [] = ok []
checked_lines (it ∷ items) =
    if leb_ℤ it.quantity (pos 0) || ltb_ℤ (pos 10000) it.quantity
    then err invalid_input
    else if valid_sku_id it.sku_id
    then (do rest ← checked_lines items; ok (it ∷ rest))
    else err invalid_input

-- reservationLines
unfoldable pub reservation_lines : List Line → Result (List Line)
reservation_lines items =
    if leb 1 (length items) && leb (length items) 100
    then checked_lines items
    else err invalid_input

-- `e == ""`, or time.Parse(time.RFC3339, e) accepts it.
abbrev pub valid_expiry : (GoString → Bool) → GoString → Bool
valid_expiry rfc3339 [] = true
valid_expiry rfc3339 (c ∷ cs) = rfc3339 (c ∷ cs)

-- `h == ""`, or it is the canonical hash.
abbrev pub valid_hash : GoString → GoString → Bool
valid_hash canonical [] = true
valid_hash canonical (c ∷ cs) = text_eq (c ∷ cs) canonical

-- The checks at the head of Reserve. Each of them answers with the same code and reason.
unfoldable pub checked_request :
    (GoString → Bool) → Runtime → ReserveMessage → Result ReservationRequest
checked_request rfc3339 rt m = do
  require (valid_reservation_id m.reservation_id) invalid_input
  require (valid_reservation_id m.order_id) invalid_input
  require (valid_destination_region m.destination_region) invalid_input
  items ← reservation_lines m.items
  require (valid_expiry rfc3339 m.expires_at) invalid_input
  require
      (valid_hash (canonical_hash rt.sha256_hex (aggregate_lines items) m.destination_region)
        m.request_hash)
      invalid_input
  ok (record {
    id = m.reservation_id;
    order_id = m.order_id;
    items = items;
    destination_region = m.destination_region;
    expires_at = m.expires_at;
  })

-- ReservationService.Reserve
unfoldable pub service_reserve :
    Runtime → Env → ReservationRequest → Db → Result ReservationResult × Db
service_reserve rt env req = reserve rt env (record req { items = aggregate_lines req.items })

abbrev pub wire_allocation : Allocation → WireAllocation
wire_allocation a = record {
  sku_id = a.sku_id;
  warehouse_id = format_int a.warehouse_id;
  quantity = a.quantity;
}

abbrev pub reserve_reply : Result ReservationResult → Reply ReserveReply
reserve_reply (err e) = refused (reservation_error e)
reserve_reply (ok r) = reply (record {
  reservation_id = r.id;
  status = to_proto_status r.status;
  allocations = map wire_allocation r.allocations;
})

-- Server.Reserve
unfoldable pub server_reserve :
    (GoString → Bool) → Runtime → Env → ReserveMessage → Db → Reply ReserveReply × Db
server_reserve rfc3339 rt env m db = elim (checked_request rfc3339 rt m) [
  | err e ↦ (refused invalid, db)
  | ok req ↦ let done = service_reserve rt env req db in (reserve_reply done.0, done.1)
]

abbrev pub status_reply : GoString → Result Status → Reply StatusReply
status_reply id (err e) = refused (reservation_error e)
status_reply id (ok st) = reply (record { reservation_id = id; status = to_proto_status st })

-- Server.Release
unfoldable pub server_release : Env → GoString → GoString → Db → Reply StatusReply × Db
server_release env id reason db =
    let done = release env id reason db in
    if valid_reservation_id id && valid_release_reason reason
    then (status_reply id done.0, done.1)
    else (refused invalid, db)

-- Server.Commit
unfoldable pub server_commit : Env → GoString → Db → Reply StatusReply × Db
server_commit env id db =
    let done = commit env id db in
    if valid_reservation_id id then (status_reply id done.0, done.1) else (refused invalid, db)

abbrev pub wire_reservation : Result Reservation → Reply WireReservation
wire_reservation (err e) = refused (reservation_error e)
wire_reservation (ok r) = reply (record {
  id = r.id;
  order_id = r.order_id;
  status = to_proto_status r.status;
  allocations = map wire_allocation r.allocations;
  created_at = r.created_at;
  updated_at = r.updated_at;
  expires_at = r.expires_at;
})

-- Server.GetReservation
unfoldable pub server_get_reservation : (ℕ → GoString) → GoString → Db → Reply WireReservation
server_get_reservation format id db =
    let found = get_reservation format id db in
    if valid_reservation_id id then wire_reservation found else refused invalid
