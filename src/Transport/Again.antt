-- ===== src/Transport/Again.antt =====
-- Reserve sent again over gRPC, as after an answer that did not arrive.
use mathlib.Core.List.{Perm, perm_middle, append-nil}
use mathlib.Core.List.Perm
use inventory_service.Base.{
  GoString, ◌≡◌, refl, Bool, false, none, subst, List, [], ◌∷◌, ◌++◌, map, arith, inl, inr,
  Bool-cases,
}
use inventory_service.Domain.Types.{ReservationRequest, ReservationResult, Allocation, reserved}
use inventory_service.Domain.Errors.{Result, ok, Result-cases}
use inventory_service.Store.Reservations.{find, place, in_lock_order, goes_before}
use inventory_service.Store.Database.{Db, Env, Runtime, transact}
use inventory_service.Reservations.Reserve.{
  reserve, claim_reservation, insert_header, claimed_or_replayed, place_hold, resolve_claim_error,
  replay_reservation, no_rows_is_conflict,
}
use inventory_service.Consistency.Defs.{IsConsistent}
use inventory_service.Lifecycle.Placed.{rev_onto}
use inventory_service.Lifecycle.Replay.{second_time, reserve_replay}
use inventory_service.Transport.Resend.{aggregated}
use inventory_service.Transport.Wire.{
  Reply, reply, ReserveMessage, ReserveReply, to_proto_status, proto_reserved,
}
use inventory_service.Transport.Server.{
  checked_request, reservation_lines, service_reserve, server_reserve, reserve_reply,
  wire_allocation,
}

-- What Reserve makes under an id that is new is not a replay.
reserve_new :
    (rt : Runtime) (env : Env) (req : ReservationRequest) (x : ReservationResult) (db now : Db)
    → find req.id db.reservations ≡ none
    → reserve rt env req db ≡ (ok x, now)
    → (x.replayed ≡ false) × (x.status ≡ reserved)
unfolding reserve claim_reservation insert_header transact claimed_or_replayed place_hold
    resolve_claim_error replay_reservation no_rows_is_conflict
reserve_new rt env req x db now f h = ground arith

place-perm : (a : Allocation) (bs : List Allocation) → Perm (place a bs) (a ∷ bs)
unfolding place
place-perm a [] = Perm.refl _
place-perm a (b ∷ bs) = elim (Bool-cases (goes_before a b)) [
  | inl t ↦ rw t (Perm.refl _)
  | inr t ↦ rw t (Perm.trans (Perm.cons b (place-perm a bs)) (Perm.swap a b bs))
]

in_lock_order-perm : (bs : List Allocation) → Perm (in_lock_order bs) bs
unfolding in_lock_order
in_lock_order-perm [] = Perm.refl _
in_lock_order-perm (a ∷ bs) =
    Perm.trans (place-perm a (in_lock_order bs)) (Perm.cons a (in_lock_order-perm bs))

rev_onto-perm : (xs ys : List Allocation) → Perm (rev_onto xs ys) (xs ++ ys)
rev_onto-perm [] ys = Perm.refl _
rev_onto-perm (x ∷ xs) ys = Perm.trans (rev_onto-perm xs (x ∷ ys)) (perm_middle xs ys)

-- The allocations of a replay are those of the first answer, in another order.
second_time-perm : (x : ReservationResult) → Perm (second_time x).allocations x.allocations
second_time-perm x = Perm.trans (in_lock_order-perm (rev_onto x.allocations [])) (
    subst (λ l. Perm (rev_onto x.allocations []) l) (append-nil x.allocations)
      (rev_onto-perm x.allocations []))

-- The second of two answers gives the same reservation: under the same id, RESERVED, and with the
-- same allocations, maybe in another order.
pub record IsSameReply (first second : ReserveReply) : Type 0 where
  pub id : second.reservation_id ≡ first.reservation_id
  pub first_status : first.status ≡ proto_reserved
  pub second_status : second.status ≡ proto_reserved
  pub allocations : Perm second.allocations first.allocations

abbrev pub wire_reply : ReservationResult → ReserveReply
wire_reply x = record {
  reservation_id = x.id;
  status = to_proto_status x.status;
  allocations = map wire_allocation x.allocations;
}

wire_reply-IsSameReply :
    (x : ReservationResult)
    → x.status ≡ reserved
    → IsSameReply (wire_reply x) (wire_reply (second_time x))
unfolding to_proto_status
wire_reply-IsSameReply x e = record {
  id = refl;
  first_status = rw e refl;
  second_status = rw e refl;
  allocations = Perm.map wire_allocation (second_time-perm x);
}

reply_injective : (a b : ReserveReply) → ◌≡◌ {A = Reply ReserveReply} (reply a) (reply b) → a ≡ b
reply_injective a b h = cc

checked_request_id :
    (rfc3339 : GoString → Bool) (rt : Runtime) (m : ReserveMessage) (req : ReservationRequest)
    → checked_request rfc3339 rt m ≡ ok req
    → req.id ≡ m.reservation_id
unfolding checked_request
checked_request_id rfc3339 rt m req h = elim (Result-cases (reservation_lines m.items)) [
  | inr (x, e) ↦ absurd (ground arith)
  | inl (lines, e) ↦ ground arith
]

module _ (rfc3339 : GoString → Bool) (rt : Runtime) (env env' : Env) (m : ReserveMessage)
    (r : ReserveReply) (db now : Db) where
  -- A Reserve that was answered has passed the checks of the edge and is the service's.
  server_reserve-eq-reply :
      server_reserve rfc3339 rt env m db ≡ (reply r, now)
      → (req : ReservationRequest) × (x : ReservationResult) × (checked_request rfc3339 rt m
          ≡ ok req)
        × (reserve rt env (aggregated req) db ≡ (ok x, now))
        × (reserve_reply (ok x) ≡ reply r)
  unfolding server_reserve service_reserve
  server_reserve-eq-reply h = elim (Result-cases (checked_request rfc3339 rt m)) [
    | inr (e, c) ↦ absurd (ground arith)
    | inl (req, c) ↦ elim (Result-cases (reserve rt env (aggregated req) db).0) [
      | inr (e, d) ↦ absurd (ground arith)
      | inl (x, d) ↦ (req, x, c, ground arith, ground arith)
    ]
  ]

  server_reserve_of_checked :
      (req : ReservationRequest) {z : Result ReservationResult}
      → checked_request rfc3339 rt m ≡ ok req
      → reserve rt env' (aggregated req) now ≡ (z, now)
      → server_reserve rfc3339 rt env' m now ≡ (reserve_reply z, now)
  unfolding server_reserve service_reserve
  server_reserve_of_checked req c d = rw (c, server_reserve, d) refl

  -- A Reserve can be sent again. If the reservation id is new in a consistent state and the request
  -- was answered, then the same request to the state that it left, which is there whether or not the
  -- answer arrived, changes nothing and is answered with the same reservation, at any later time and
  -- whether or not it loses a race, as long as its transaction can begin.
  pub server_reserve_again :
      IsConsistent db
      → find m.reservation_id db.reservations ≡ none
      → server_reserve rfc3339 rt env m db ≡ (reply r, now)
      → env'.begin ≡ none
      → (again : ReserveReply) × (server_reserve rfc3339 rt env' m now ≡ (reply again, now))
        × IsSameReply r again
  server_reserve_again c f h b =
      let (req, x, passed, done, first) = server_reserve-eq-reply h in
      let id : req.id ≡ m.reservation_id = checked_request_id rfc3339 rt m req passed in
      let (new, held) = reserve_new rt env (aggregated req) x db now (rw id f) done in
      let replay = reserve_replay rt env env' (aggregated req) x db now c done new b in
      let same : wire_reply x ≡ r = reply_injective (wire_reply x) r first in
      (
        wire_reply (second_time x),
        server_reserve_of_checked req passed replay,
        subst (λ a. IsSameReply a (wire_reply (second_time x))) same
            (wire_reply-IsSameReply x held),
      )
