-- ===== src/Tests/Reservations.antt =====
-- The reservation commands.
use inventory_service.Base.{
  ◌≡◌, refl, codes, ◌+ℤ◌, text_discrete, int_discrete, ℕ_discrete, [], ◌∷◌, ◌-ℤ◌,
}
use inventory_service.Domain.Types.{committed}
use inventory_service.Domain.Errors.{ok}
use inventory_service.Domain.Hash.{
  canonical_hash, canonical_text, sort_lines, place_line, encode_lines, format_int, digits,
}
use inventory_service.Store.Rows.{bigint_add, bigint_sub, check_balance}
use inventory_service.Store.Balances
use inventory_service.Store.Movements
use inventory_service.Store.Reservations
use inventory_service.Store.Atp.{
  atp, put, put_in, place_id, active_ids, is_active, snapshot_rows, fill_by_warehouse, fill,
  sku_ids_of,
}
use inventory_service.Store.Database.{transact}
use inventory_service.Reservations.Allocate.{
  active_atp_snapshot, locked_rows, lock_warehouse_atp, fulfills_lines, shortages_against, choose,
  allocations_in, allocate_in, allocate_reservation,
}
use inventory_service.Reservations.Reserve
use inventory_service.Reservations.Transition
use inventory_service.Reservations.Cases.{held_result}
use inventory_service.Tests.Data.{
  plain, calm, request, three, allocation, stocked, held_db, sold_db,
}

pub reserve_run :
    Reserve.reserve plain (calm 6 stocked) request stocked
    ≡ (ok (held_result request (allocation ∷ [])), held_db)
unfolding Reserve.reserve canonical_hash canonical_text sort_lines place_line encode_lines
    format_int digits Reserve.claim_reservation Reserve.read_expiry Reserve.insert_header
    Reservations.find Reservations.find_reference transact Reserve.claimed_or_replayed
    Reserve.place_hold allocate_reservation active_atp_snapshot put put_in place_id active_ids
    is_active snapshot_rows fill_by_warehouse fill sku_ids_of locked_rows lock_warehouse_atp
    fulfills_lines shortages_against choose allocations_in allocate_in atp Reserve.apply_reserve
    Reserve.reserve_line Reserve.add_reserved bigint_add ◌+ℤ◌ ◌-ℤ◌ check_balance Balances.update
    Balances.find Balances.replace Reservations.insert_line Reservations.has_line
    Reserve.insert_reservation_movement Reserve.reservation_movement Reserve.command_id_of
    Movements.insert Movements.find_command Movements.check_movement Movements.warehouse_exists
    text_discrete int_discrete ℕ_discrete
reserve_run = refl

pub commit_run : Transition.commit (calm 7 held_db) (codes "r1") held_db ≡ (ok committed, sold_db)
unfolding Transition.commit Transition.transition transact Transition.transition_body
    Transition.lock_status Transition.decide_commit Transition.proceed_to Transition.apply_lines
    Reserve.load_reservation_lines Reservations.in_lock_order Reservations.place Reservations.find
    Reservations.set_status Transition.commit_line Transition.sub_both Transition.one_row bigint_add
    bigint_sub ◌+ℤ◌ ◌-ℤ◌ check_balance Balances.update Balances.find Balances.replace
    Reserve.insert_reservation_movement Reserve.reservation_movement Reserve.command_id_of
    Movements.insert Movements.find_command Movements.check_movement Movements.warehouse_exists
    text_discrete int_discrete ℕ_discrete
commit_run = refl

pub allocate_run : allocate_reservation (calm 6 stocked) stocked (three ∷ []) ≡ ok (allocation ∷ [])
unfolding allocate_reservation active_atp_snapshot put put_in place_id active_ids is_active
    snapshot_rows fill_by_warehouse fill sku_ids_of locked_rows lock_warehouse_atp fulfills_lines
    shortages_against choose allocations_in allocate_in atp ◌+ℤ◌ ◌-ℤ◌ text_discrete int_discrete
    ℕ_discrete
allocate_run = refl
