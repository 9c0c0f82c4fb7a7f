-- ===== src/Tests/Edge.antt =====
-- The theorems on the edge, for an order of three.
use mathlib.Core.List.{Perm}
use inventory_service.Base.{
  ◌≡◌, ◌↔◌, refl, codes, pos, List, [], ◌∷◌, true, none, arith, text_discrete, ℕ_discrete, add64,
  ◌+ℤ◌,
}
use inventory_service.Domain.Types.{Line, ReservationRequest}
use inventory_service.Domain.Errors.{ok, err, idempotency_conflict}
use inventory_service.Domain.Aggregate.{aggregate_lines, aggregate, aggregate_all, add_at}
use inventory_service.Domain.Hash.{
  canonical_text, sort_lines, place_line, encode_lines, format_int, digits,
}
use inventory_service.Store.Reservations.{find}
use inventory_service.Reservations.Reserve.{read_expiry}
use inventory_service.Reservations.Cases.{IsStorable}
use inventory_service.Lifecycle.Replay.{as_stored}
use inventory_service.Transport.Reads.{basket}
use inventory_service.Transport.Baskets.{basket-reservation_lines}
use inventory_service.Transport.Validate.{
  valid_sku_id, valid_reservation_id, valid_destination_region, in_class, is_alnum,
}
use inventory_service.Transport.Wire.{ReserveMessage, reply, ReserveReply}
use inventory_service.Transport.Again.{IsSameReply, wire_reply, server_reserve_again}
use inventory_service.Reservations.Cases.{held_result}
use inventory_service.Tests.Reservations.{reserve_run}
use inventory_service.Tests.Invariants.{stocked-IsConsistent}
use inventory_service.Transport.Server.{service_reserve, server_reserve}
use inventory_service.Transport.Server.{
  checked_request, reservation_lines, checked_lines, service_reserve,
}
use inventory_service.Transport.Fit.{IsFit, checked_request-IsFit}
use inventory_service.Transport.Identity.{canonical_text_exact}
use inventory_service.Transport.Resend.{IsSameOrder, aggregated, text_of, service_reserve_exact}
use inventory_service.Tests.Data.{plain, calm, three, request, header, allocation, stocked, held_db}

abbrev message : ReserveMessage
message = record {
  reservation_id = codes "r1";
  order_id = codes "o1";
  items = three ∷ [];
  destination_region = codes "eu";
  expires_at = [];
  request_hash = [];
}

message_run : checked_request (λ s. true) plain message ≡ ok request
unfolding checked_request reservation_lines checked_lines valid_sku_id valid_reservation_id
    valid_destination_region in_class is_alnum
message_run = refl

checked_request-IsFit_example : IsFit message request
checked_request-IsFit_example = checked_request-IsFit (λ s. true) plain message request message_run

basket-reservation_lines_example :
    basket (three ∷ three ∷ []) ≡ (elim (reservation_lines (three ∷ three ∷ [])) [
      | err e ↦ err e
      | ok lines ↦ ok (aggregate_lines lines)
    ])
basket-reservation_lines_example = basket-reservation_lines (three ∷ three ∷ [])

-- The same order of three, in two lines.
abbrev in_two : List Line
in_two =
    record { sku_id = codes "A"; quantity = pos 1 }
    ∷ record { sku_id = codes "A"; quantity = pos 2 }
    ∷ []

abbrev message_in_two : ReserveMessage
message_in_two = record message { items = in_two }

abbrev request_in_two : ReservationRequest
request_in_two = record request { items = in_two }

message_in_two_run : checked_request (λ s. true) plain message_in_two ≡ ok request_in_two
unfolding checked_request reservation_lines checked_lines valid_sku_id valid_reservation_id
    valid_destination_region in_class is_alnum
message_in_two_run = refl

canonical_text_exact_example :
    (text_of request ≡ text_of request_in_two)
    ↔ (Perm (aggregate_lines (three ∷ [])) (aggregate_lines in_two) × (codes "eu" ≡ codes "eu"))
canonical_text_exact_example =
    canonical_text_exact (λ s. true) plain message message_in_two request request_in_two message_run
      message_in_two_run

in_two-IsStorable : IsStorable plain (aggregated request_in_two) (text_of request_in_two)
unfolding read_expiry canonical_text sort_lines place_line encode_lines format_int digits
    aggregate_lines aggregate aggregate_all add_at text_discrete ℕ_discrete add64 ◌+ℤ◌
in_two-IsStorable = record {
  expiry = none;
  reads = refl;
  id_fits = omega arith;
  order_fits = omega arith;
  hash_fits = omega arith;
}

header_hash : header.request_hash ≡ text_of request
unfolding canonical_text sort_lines place_line encode_lines format_int digits aggregate_lines
    aggregate aggregate_all add_at
header_hash = refl

service_reserve_exact_example :
    (IsSameOrder header request request_in_two
      → service_reserve plain (calm 9 held_db) request_in_two held_db ≡ (
        ok (as_stored plain (calm 9 held_db) (aggregated request_in_two) held_db header),
        held_db,
      ))
    × (¬ IsSameOrder header request request_in_two
        → service_reserve plain (calm 9 held_db) request_in_two held_db
          ≡ (err idempotency_conflict, held_db))
unfolding find text_discrete ℕ_discrete
service_reserve_exact_example =
    service_reserve_exact (λ s. true) plain message message_in_two request request_in_two header
      (λ e. e) message_run message_in_two_run header_hash (calm 9 held_db) held_db refl
      in_two-IsStorable refl

three_aggregated : aggregated request ≡ request
unfolding aggregate_lines aggregate aggregate_all add_at text_discrete ℕ_discrete
three_aggregated = refl

message_answer :
    server_reserve (λ s. true) plain (calm 6 stocked) message stocked
    ≡ (reply (wire_reply (held_result request (allocation ∷ []))), held_db)
unfolding server_reserve service_reserve
message_answer = rw (message_run, server_reserve, three_aggregated, reserve_run) refl

server_reserve_again_example :
    (again : ReserveReply) × (server_reserve (λ s. true) plain (calm 9 held_db) message held_db
      ≡ (reply again, held_db))
    × IsSameReply (wire_reply (held_result request (allocation ∷ []))) again
unfolding find
server_reserve_again_example =
    server_reserve_again (λ s. true) plain (calm 6 stocked) (calm 9 held_db) message
      (wire_reply (held_result request (allocation ∷ []))) stocked held_db stocked-IsConsistent refl
      message_answer refl
