-- ===== src/Reservations/Transition.antt =====
-- Release, Commit, the transition that they share, and GetReservation.
use inventory_service.Base.{
  ℕ, zero, suc, GoString, codes, ℤ, pos, Option, none, some, List, [], ◌∷◌, negate,
}
use inventory_service.Domain.Types.{
  Allocation, Status, reserved, committed, released, expired, MovementType, Reservation,
}
use inventory_service.Domain.Errors.{
  Error, Result, ok, err, invalid_transition, reservation_not_found, rows_updated, on_error, ◌>>=◌,
}
use inventory_service.Store.Rows.{Balance, Header, bigint_add, bigint_sub, check_balance}
use inventory_service.Store.Balances
use inventory_service.Store.Reservations.{find, set_status}
use inventory_service.Store.Database.{Db, Env, Ending, commits, leaves, transact, unless}
use inventory_service.Reservations.Allocate.{translate_concurrency}
use inventory_service.Reservations.Reserve.{
  reservation_movement, insert_reservation_movement, command_id_of, load_reservation_lines,
}

-- What a transition does in a given status; no status stands for a missing row.
pub data Decision : Type 0 where
  proceed : Decision
  done : Status → Decision
  refuse : Error → Decision

unfoldable pub decide_release : Option Status → Decision
decide_release none = done released
decide_release (some released) = done released
decide_release (some committed) = refuse invalid_transition
decide_release (some expired) = refuse invalid_transition
decide_release (some reserved) = proceed

unfoldable pub decide_commit : Option Status → Decision
decide_commit none = refuse reservation_not_found
decide_commit (some committed) = done committed
decide_commit (some released) = refuse invalid_transition
decide_commit (some expired) = refuse invalid_transition
decide_commit (some reserved) = proceed

-- `reserved = reserved - q, version = version + 1, updated_at = now()`
unfoldable pub sub_reserved : ℕ → ℤ → Balance → Result Balance
sub_reserved now q b = do
  held ← bigint_sub b.reserved q
  version ← bigint_add b.version (pos 1)
  check_balance (record b { reserved = held; version = version; updated_at = now })

-- `on_hand = on_hand - q, reserved = reserved - q, version = version + 1, updated_at = now()`
unfoldable pub sub_both : ℕ → ℤ → Balance → Result Balance
sub_both now q b = do
  on_hand ← bigint_sub b.on_hand q
  held ← bigint_sub b.reserved q
  version ← bigint_add b.version (pos 1)
  check_balance
      (record b { on_hand = on_hand; reserved = held; version = version; updated_at = now })

-- RowsAffected() != 1
unfoldable pub one_row : Db → List Balance × ℕ → Result Db
one_row db (bs, suc zero) = ok (record db { balances = bs })
one_row db (bs, _) = err rows_updated

-- The reason, if one is given.
abbrev pub null_if_empty : GoString → Option GoString
null_if_empty [] = none
null_if_empty (c ∷ cs) = some (c ∷ cs)

unfoldable pub release_line : Env → GoString → GoString → Allocation → Db → Result Db
release_line env id reason a db = do
  updated ←
      on_error translate_concurrency
        (Balances.update (sub_reserved env.now a.quantity) a.sku_id a.warehouse_id db.balances)
  db' ← one_row db updated
  insert_reservation_movement
      (reservation_movement env (command_id_of (codes "rel:") id a.sku_id) a MovementType.release
        (pos 0) (negate a.quantity) id (null_if_empty reason))
      db'

unfoldable pub commit_line : Env → GoString → Allocation → Db → Result Db
commit_line env id a db = do
  updated ←
      on_error translate_concurrency
        (Balances.update (sub_both env.now a.quantity) a.sku_id a.warehouse_id db.balances)
  db' ← one_row db updated
  insert_reservation_movement
      (reservation_movement env (command_id_of (codes "cmt:") id a.sku_id) a
        MovementType.sale_committed (negate a.quantity) (negate a.quantity) id none)
      db'

unfoldable pub apply_lines : (Allocation → Db → Result Db) → List Allocation → Db → Result Db
apply_lines apply_line [] db = ok db
apply_lines apply_line (a ∷ rest) db = do db' ← apply_line a db; apply_lines apply_line rest db'

abbrev pub status_of : Option Header → Option Status
status_of none = none
status_of (some h) = some h.status

-- The status as it is read under the row lock.
unfoldable pub lock_status : Env → Db → GoString → Result (Option Status)
lock_status env db id =
    on_error translate_concurrency (unless env.lock (ok (status_of (find id db.reservations))))

unfoldable pub proceed_to :
    Env → GoString → Status → (Allocation → Db → Result Db) → Db → Result (Ending Status)
proceed_to env id target apply_line db = do
  db' ← apply_lines apply_line (load_reservation_lines db id) db
  ok (commits target (record db' { reservations = set_status id target env.now db'.reservations }))

abbrev pub decided : Decision → Result (Ending Status) → Result (Ending Status)
decided proceed go = go
decided (done status) go = ok (leaves status)
decided (refuse e) go = err e

unfoldable pub transition_body :
    Env
    → GoString
    → Status
    → (Option Status → Decision)
    → (Allocation → Db → Result Db)
    → Db
    → Result (Ending Status)
transition_body env id target decide apply_line db = do
  status ← lock_status env db id
  decided (decide status) (proceed_to env id target apply_line db)

unfoldable pub transition :
    Env
    → GoString
    → Status
    → (Option Status → Decision)
    → (Allocation → Db → Result Db)
    → Db
    → Result Status × Db
transition env id target decide apply_line db =
    transact env translate_concurrency (transition_body env id target decide apply_line db) db

unfoldable pub release : Env → GoString → GoString → Db → Result Status × Db
unfolding transition
release env id reason db = transition env id released decide_release (release_line env id reason) db

unfoldable pub commit : Env → GoString → Db → Result Status × Db
unfolding transition
commit env id db = transition env id committed decide_commit (commit_line env id) db

-- An instant in RFC-3339; the empty text where there is none.
abbrev pub format_optional : (ℕ → GoString) → Option ℕ → GoString
format_optional format none = []
format_optional format (some t) = format t

-- GetReservation
unfoldable pub get_reservation : (ℕ → GoString) → GoString → Db → Result Reservation
get_reservation format id db = elim (find id db.reservations) [
  | none ↦ err reservation_not_found
  | some h ↦ ok (record {
    id = id;
    order_id = h.external_reference;
    status = h.status;
    allocations = load_reservation_lines db id;
    created_at = format h.created_at;
    updated_at = format h.updated_at;
    expires_at = format_optional format h.expires_at;
  })
]
