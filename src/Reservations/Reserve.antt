-- ===== src/Reservations/Reserve.antt =====
-- Reserve of internal/core/repository/reservations.go.
use inventory_service.Base.{
  ℕ, GoString, codes, text_eq, ℤ, pos, Bool, true, false, ◌&&◌, if◌then◌else◌, Option, none, some,
  List, [], ◌∷◌, ◌++◌, map, keep,
}
use inventory_service.Domain.Types.{
  Allocation, reserved, MovementType, ReservationRequest, ReservationResult,
}
use inventory_service.Domain.Errors.{
  Error, Result, ok, err, pg, invalid_datetime, order_ref_taken, no_rows, idempotency_conflict,
  on_error, ◌>>=◌, ◌>>◌,
}
use inventory_service.Domain.Hash.{canonical_hash}
use inventory_service.Store.Rows.{Balance, Header, Movement, bigint_add, check_balance, varchar}
use inventory_service.Store.Balances
use inventory_service.Store.Movements
use inventory_service.Store.Reservations.{
  find, find_reference, insert_line, in_lock_order, allocation_of,
}
use inventory_service.Store.Database.{Db, Env, Runtime, Ending, commits, leaves, transact}
use inventory_service.Reservations.Allocate.{translate_concurrency, allocate_reservation}

-- NULLIF($4, '')::timestamptz
unfoldable pub read_expiry : Runtime → GoString → Result (Option ℕ)
read_expiry rt [] = ok none
read_expiry rt (c ∷ cs) = elim (rt.parse_timestamptz (c ∷ cs)) [
  | none ↦ err (pg invalid_datetime)
  | some t ↦ ok (some t)
]

abbrev pub is_taken : Option Header → Bool
is_taken none = false
is_taken (some _) = true

-- The row that a claim inserts.
abbrev pub new_header : Env → ReservationRequest → GoString → Option ℕ → Header
new_header env req hash expires_at = record {
  id = req.id;
  external_reference = req.order_id;
  request_hash = hash;
  status = reserved;
  expires_at = expires_at;
  created_at = env.now;
  updated_at = env.now;
}

-- `INSERT INTO inventory_reservations … ON CONFLICT (id) DO NOTHING`. `none`: the id is taken. A
-- violation of the other unique index becomes errOrderRefTaken; it is also met for a taken id if the
-- race for the id was lost.
unfoldable pub insert_header : Env → Header → Db → Result (Option Db)
insert_header env h db =
    if is_taken (find h.id db.reservations)
    then (if env.lost_race && is_taken (find_reference h.external_reference db.reservations)
        then err order_ref_taken
        else ok none)
    else if is_taken (find_reference h.external_reference db.reservations)
    then err order_ref_taken
    else ok (some (record db { reservations = h ∷ db.reservations }))

-- claimReservation
unfoldable pub claim_reservation :
    Runtime → Env → ReservationRequest → GoString → Db → Result (Option Db)
claim_reservation rt env req hash db = do
  expires_at ← read_expiry rt req.expires_at
  varchar 255 req.id
  varchar 255 req.order_id
  varchar 128 hash
  insert_header env (new_header env req hash expires_at) db

-- loadReservationLines
unfoldable pub load_reservation_lines : Db → GoString → List Allocation
load_reservation_lines db id =
    in_lock_order (map allocation_of (keep (λ l. text_eq l.reservation_id id) db.lines))

-- replayReservation
unfoldable pub replay_reservation : Db → GoString → GoString → GoString → Result ReservationResult
replay_reservation db id order_id hash = elim (find id db.reservations) [
  | none ↦ err no_rows
  | some h ↦
      if text_eq h.request_hash hash && text_eq h.external_reference order_id
      then ok (record {
        id = id;
        status = h.status;
        allocations = load_reservation_lines db id;
        replayed = true;
      })
      else err idempotency_conflict
]

-- A reservation's ledger row: no actor, and a reason only if one is given.
unfoldable pub reservation_movement :
    Env → GoString → Allocation → MovementType → ℤ → ℤ → GoString → Option GoString → Movement
reservation_movement env command_id a type on_hand_delta reserved_delta id reason = record {
  command_id = command_id;
  sku_id = a.sku_id;
  warehouse_id = a.warehouse_id;
  type = type;
  on_hand_delta = on_hand_delta;
  reserved_delta = reserved_delta;
  reference_type = codes "reservation";
  reference_id = some id;
  reason = reason;
  actor = none;
  created_at = env.now;
}

-- insertReservationMovement
unfoldable pub insert_reservation_movement : Movement → Db → Result Db
insert_reservation_movement m db = do
  movements ← on_error translate_concurrency (Movements.insert db.warehouses m db.movements)
  ok (record db { movements = movements })

-- `res:<reservation id>:<sku>`, and so for `rel:` and `cmt:`
unfoldable pub command_id_of : GoString → GoString → GoString → GoString
command_id_of prefix id sku = prefix ++ id ++ codes ":" ++ sku

-- `reserved = reserved + q, version = version + 1, updated_at = now()`
unfoldable pub add_reserved : ℕ → ℤ → Balance → Result Balance
add_reserved now q b = do
  held ← bigint_add b.reserved q
  version ← bigint_add b.version (pos 1)
  check_balance (record b { reserved = held; version = version; updated_at = now })

-- One round of applyReserve. The number of rows that the UPDATE met is not looked at.
unfoldable pub reserve_line : Env → GoString → Allocation → Db → Result Db
reserve_line env id a db = do
  (balances, rows) ←
      on_error translate_concurrency
        (Balances.update (add_reserved env.now a.quantity) a.sku_id a.warehouse_id db.balances)
  lines ← on_error translate_concurrency (
      insert_line db.warehouses db.reservations
        (record {
          reservation_id = id;
          sku_id = a.sku_id;
          warehouse_id = a.warehouse_id;
          quantity = a.quantity;
        })
        db.lines)
  insert_reservation_movement
      (reservation_movement env (command_id_of (codes "res:") id a.sku_id) a MovementType.reserve
        (pos 0) a.quantity id none)
      (record db { balances = balances; lines = lines })

-- applyReserve
unfoldable pub apply_reserve : Env → GoString → List Allocation → Db → Result Db
apply_reserve env id [] db = ok db
apply_reserve env id (a ∷ rest) db = do
  db' ← reserve_line env id a db
  apply_reserve env id rest db'

-- What Reserve does once the id is claimed.
unfoldable pub place_hold : Env → ReservationRequest → Db → Result (Ending ReservationResult)
place_hold env req db = do
  allocations ← allocate_reservation env db req.items
  db' ← apply_reserve env req.id allocations db
  ok (
      commits
        (record { id = req.id; status = reserved; allocations = allocations; replayed = false })
        db')

-- errors.Is(rerr, pgx.ErrNoRows)
unfoldable pub no_rows_is_conflict : Error → Error
no_rows_is_conflict no_rows = idempotency_conflict
no_rows_is_conflict e = e

-- The transaction of Reserve after a claim that did not fail.
unfoldable pub claimed_or_replayed :
    Env → ReservationRequest → GoString → Db → Option Db → Result (Ending ReservationResult)
claimed_or_replayed env req hash db none = do
  result ← replay_reservation db req.id req.order_id hash
  ok (leaves result)
claimed_or_replayed env req hash db (some claimed) = place_hold env req claimed

-- A claim that failed: the transaction is rolled back, and errOrderRefTaken is resolved outside it.
unfoldable pub resolve_claim_error :
    ReservationRequest → GoString → Db → Error → Result ReservationResult
resolve_claim_error req hash db order_ref_taken =
    on_error no_rows_is_conflict (replay_reservation db req.id req.order_id hash)
resolve_claim_error req hash db e = err e

unfoldable pub reserve : Runtime → Env → ReservationRequest → Db → Result ReservationResult × Db
reserve rt env req db =
    let hash = canonical_hash rt.sha256_hex req.items req.destination_region in
    elim env.begin [
      | some e ↦ (err e, db)
      | none ↦ elim (claim_reservation rt env req hash db) [
        | err e ↦ (resolve_claim_error req hash db e, db)
        | ok claim ↦
            transact env translate_concurrency (claimed_or_replayed env req hash db claim) db
      ]
    ]
