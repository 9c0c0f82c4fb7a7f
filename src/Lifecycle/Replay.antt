-- ===== src/Lifecycle/Replay.antt =====
-- Reserve under an id or an order id that is already taken.
use inventory_service.Base.{
  GoString, text_eq, ◌≡◌, refl, ◌∙◌, subst, true, false, ◌&&◌, if◌then◌else◌, none, some, List, [],
  ◌∷◌, arith,
}
use inventory_service.Domain.Types.{ReservationRequest, ReservationResult, Allocation}
use inventory_service.Domain.Errors.{Result, ok, err, idempotency_conflict}
use inventory_service.Domain.Hash.{canonical_hash}
use inventory_service.Store.Rows.{Header}
use inventory_service.Store.Reservations.{find, find_reference, in_lock_order}
use inventory_service.Store.Database.{Db, Env, Runtime, transact}
use inventory_service.Reservations.Reserve.{
  reserve, apply_reserve, claim_reservation, new_header, insert_header, claimed_or_replayed,
  replay_reservation, resolve_claim_error, no_rows_is_conflict, load_reservation_lines,
}
use inventory_service.Reservations.Cases.{
  IsStorable, IsNew, reserve_cases, claimed, held_result, IsReplayed,
}
use inventory_service.Reservations.Gate.{allocate_reservation-IsGated, IsBacked-allocations_in}
use inventory_service.Reservations.Allocate.{allocate_reservation}
use inventory_service.Consistency.Defs.{IsConsistent}
use inventory_service.Lifecycle.Placed.{
  rev_onto, apply_reserve-frame, load_reservation_lines-stacked,
}

module _ (rt : Runtime) (env : Env) (req : ReservationRequest) (db : Db) where
  abbrev pub hash_of : GoString
  hash_of = canonical_hash rt.sha256_hex req.items req.destination_region

  -- The answer of a replay.
  abbrev pub as_stored : Header → ReservationResult
  as_stored h = record {
    id = req.id;
    status = h.status;
    allocations = load_reservation_lines db req.id;
    replayed = true;
  }

  claim_reservation_of_storable :
      (s : IsStorable rt req hash_of)
      → claim_reservation rt env req hash_of db
        ≡ insert_header env (new_header env req hash_of s.expiry) db
  unfolding claim_reservation
  claim_reservation_of_storable s = ground (arith, s.reads, s.id_fits, s.order_fits, s.hash_fits)

  replay_reservation_of_found :
      (h : Header)
      → find req.id db.reservations ≡ some h
      → replay_reservation db req.id req.order_id hash_of ≡ (
          if text_eq h.request_hash hash_of && text_eq h.external_reference req.order_id
          then ok (as_stored h)
          else err idempotency_conflict)
  unfolding replay_reservation
  replay_reservation_of_found h f = rw (f, replay_reservation) refl

  -- Under an id that is taken, a request whose values fit their columns and whose transaction can
  -- begin changes nothing, whether or not it lost a race for the id: with the stored hash and the
  -- stored order it gets the reservation as it now is, and with another of either it is refused
  -- with ErrIdempotencyConflict.
  pub reserve_taken :
      (h : Header)
      → IsStorable rt req hash_of
      → env.begin ≡ none
      → find req.id db.reservations ≡ some h
      → reserve rt env req db ≡ (
        if text_eq h.request_hash hash_of && text_eq h.external_reference req.order_id
            then ok (as_stored h)
            else err idempotency_conflict,
        db,
      )
  unfolding reserve transact claimed_or_replayed resolve_claim_error insert_header
      no_rows_is_conflict
  reserve_taken h s b f =
      ground (arith, claim_reservation_of_storable s, replay_reservation_of_found h f)

  -- An order has one reservation: a request under a new id for an order that another reservation
  -- holds, whose values fit their columns and whose transaction can begin, is refused with
  -- ErrIdempotencyConflict and changes nothing.
  pub reserve_order_taken :
      (h : Header)
      → IsStorable rt req hash_of
      → env.begin ≡ none
      → find req.id db.reservations ≡ none
      → find_reference req.order_id db.reservations ≡ some h
      → reserve rt env req db ≡ (err idempotency_conflict, db)
  unfolding reserve resolve_claim_error insert_header no_rows_is_conflict replay_reservation
  reserve_order_taken h s b f r = ground (arith, claim_reservation_of_storable s)

-- What a request gets the second time, if the first time it made a reservation.
abbrev pub second_time : ReservationResult → ReservationResult
second_time x = record x {
  allocations = in_lock_order (rev_onto x.allocations []);
  replayed = true;
}

find-head : (id : GoString) (h : Header) (hs : List Header) → h.id ≡ id → find id (h ∷ hs) ≡ some h
unfolding find
find-head id h hs e = ground arith

module _ (rt : Runtime) (env env' : Env) (req : ReservationRequest) where
  abbrev IsRepeatable : Result ReservationResult × Db → Type 0
  IsRepeatable (err e, now) = Unit
  IsRepeatable (ok x, now) =
      x.replayed ≡ false → reserve rt env' req now ≡ (ok (second_time x), now)

  repeat_fresh :
      (db : Db) (h : Header) (allocations : List Allocation) (db' : Db)
      → IsConsistent db
      → env'.begin ≡ none
      → IsNew rt req (hash_of rt env req db) db h
      → allocate_reservation env (claimed h db) req.items ≡ ok allocations
      → apply_reserve env req.id allocations (claimed h db) ≡ ok db'
      → reserve rt env' req db' ≡ (ok (second_time (held_result req allocations)), db')
  repeat_fresh db h allocations db' c b new allocated applied =
      let gate =
        allocate_reservation-IsGated env (claimed h db) req.items allocations c.stocked.keyed
          allocated in
      let (kept, stored) =
        apply_reserve-frame env req.id allocations (claimed h db) db'
          (rw gate.whole
            (IsBacked-allocations_in (claimed h db) gate.warehouse req.items gate.covered))
          applied in
      let found : find req.id db'.reservations ≡ some h =
        rw kept (find-head req.id h db.reservations new.id) in
      let lines =
        load_reservation_lines-stacked req.id db.reservations allocations db db' c.known
          (rw (← new.id) new.fresh) stored in
      reserve_taken rt env' req db' h new.storable b found
      ∙ ground (arith, new.hash, new.reference, new.status, lines)

-- A reservation is made once. If Reserve has made one from a consistent state, the same request
-- sent again to the state that it left, at any later time and whether or not it loses a race, as
-- long as its transaction can begin, returns that reservation as RESERVED and replayed, with the
-- same allocations in lock order, and changes nothing.
pub reserve_replay :
    (rt : Runtime) (env env' : Env) (req : ReservationRequest) (x : ReservationResult) (db db' : Db)
    → IsConsistent db
    → reserve rt env req db ≡ (ok x, db')
    → x.replayed ≡ false
    → env'.begin ≡ none
    → reserve rt env' req db' ≡ (ok (second_time x), db')
reserve_replay rt env env' req x db db' c done first b =
    subst (IsRepeatable rt env env' req) done
      (reserve_cases (IsRepeatable rt env env' req) rt env req db
        (λ r again.
          elim r as (λ r. IsReplayed r → IsRepeatable rt env env' req (r, db)) [
            | err e ↦ λ _. tt
            | ok y ↦ λ again no. absurd (cc (again y refl, no))
          ]
            again)
        (λ h allocations db'' new allocated applied _.
          repeat_fresh rt env env' req db h allocations db'' c b new allocated applied))
      first
