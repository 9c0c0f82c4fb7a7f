-- ===== src/Reservations/Ledger.antt =====
-- The ledger accounts for every change that Reserve, Release and Commit make.
use inventory_service.Base.{GoString, ℤ, ◌≡◌, refl, List, Option}
use inventory_service.Domain.Types.{Allocation, Status, ReservationRequest, released, committed}
use inventory_service.Domain.Errors.{Result, ok}
use inventory_service.Store.Rows.{Header}
use inventory_service.Store.Balances.{IsKeyed}
use inventory_service.Store.Database.{Db, Env, Runtime}
use inventory_service.Store.Ledger.{IsLedgered, IsLedgered-refl, IsLedgered-trans}
use inventory_service.Reservations.Reserve.{reserve, reservation_movement, load_reservation_lines}
use inventory_service.Reservations.Transition.{
  Decision, transition, decide_release, decide_commit, release_line, commit_line, release, commit,
}
use inventory_service.Reservations.Steps.{LineStep-IsLedgered}
use inventory_service.Reservations.Lines.{
  reserve_movement, release_movement, commit_movement, release_line-ReturnStep,
  commit_line-ReturnStep,
}
use inventory_service.Reservations.Gate.{allocate_reservation-IsGated, IsBacked-allocations_in}
use inventory_service.Reservations.Loops.{apply_reserve_induction, apply_lines_induction}
use inventory_service.Reservations.Cases.{reserve_cases, transition_cases, claimed}

module _ (s : GoString) (w : ℤ) (env : Env) (id : GoString) where
  -- Between two states that differ in the reservations at most.
  relabelled :
      (hs : List Header) (db db' : Db)
      → IsLedgered s w db db'
      → IsLedgered s w db (record db' { reservations = hs })
  relabelled hs db db' h = record { on_hand = h.on_hand; reserved = h.reserved }

  release_line-IsLedgered :
      (reason : GoString) (a : Allocation) (db db' : Db)
      → release_line env id reason a db ≡ ok db'
      → IsLedgered s w db db'
  unfolding reservation_movement
  release_line-IsLedgered reason a db db' h =
      LineStep-IsLedgered a (release_movement env id a reason) db db'
        (release_line-ReturnStep env id a reason db db' h).step s w refl refl

  commit_line-IsLedgered :
      (a : Allocation) (db db' : Db) → commit_line env id a db ≡ ok db' → IsLedgered s w db db'
  unfolding reservation_movement
  commit_line-IsLedgered a db db' h =
      LineStep-IsLedgered a (commit_movement env id a) db db'
        (commit_line-ReturnStep env id a db db' h).step s w refl refl

  transition-IsLedgered :
      (target : Status) (decide : Option Status → Decision)
      (apply_line : Allocation → Db → Result Db) (db : Db)
      → ((a : Allocation) (now next : Db) → apply_line a now ≡ ok next → IsLedgered s w now next)
      → IsLedgered s w db (transition env id target decide apply_line db).1
  transition-IsLedgered target decide apply_line db each =
      transition_cases (λ r. IsLedgered s w db r.1) env id target decide apply_line db
        (λ e. IsLedgered-refl s w db) (λ st d. IsLedgered-refl s w db)
        λ db' p applied. relabelled _ db db' (
          apply_lines_induction apply_line (λ todo now. IsLedgered s w db now)
            (λ a rest now next e h. IsLedgered-trans s w db now next h (each a now next e))
            (load_reservation_lines db id) db db' applied (IsLedgered-refl s w db))

-- In every outcome of Release, and for every SKU in every warehouse, on_hand and reserved change
-- by exactly what the new movements for that pair add up to.
pub release-IsLedgered :
    (env : Env) (id reason : GoString) (db : Db) (s : GoString) (w : ℤ)
    → IsLedgered s w db (release env id reason db).1
unfolding release
release-IsLedgered env id reason db s w =
    transition-IsLedgered s w env id released decide_release (release_line env id reason) db
      (release_line-IsLedgered s w env id reason)

-- In every outcome of Commit, and for every SKU in every warehouse, on_hand and reserved change by
-- exactly what the new movements for that pair add up to.
pub commit-IsLedgered :
    (env : Env) (id : GoString) (db : Db) (s : GoString) (w : ℤ)
    → IsLedgered s w db (commit env id db).1
unfolding commit
commit-IsLedgered env id db s w =
    transition-IsLedgered s w env id committed decide_commit (commit_line env id) db
      (commit_line-IsLedgered s w env id)

-- From a store with at most one balance to a SKU and warehouse, and in every outcome of Reserve:
-- for every SKU in every warehouse, on_hand and reserved change by exactly what the new movements
-- for that pair add up to.
pub reserve-IsLedgered :
    (rt : Runtime) (env : Env) (req : ReservationRequest) (db : Db) (s : GoString) (w : ℤ)
    → IsKeyed db.balances
    → IsLedgered s w db (reserve rt env req db).1
unfolding reservation_movement
reserve-IsLedgered rt env req db s w keyed =
    reserve_cases (λ r. IsLedgered s w db r.1) rt env req db (λ r _. IsLedgered-refl s w db)
      λ h allocations db' new allocated applied.
        let gate =
          allocate_reservation-IsGated env (claimed h db) req.items allocations keyed allocated in
        apply_reserve_induction env req.id (λ todo now. IsLedgered s w db now)
          (λ a rest now next done p. IsLedgered-trans s w db now next p (
            LineStep-IsLedgered a (reserve_movement env req.id a) now next done.step s w refl refl))
          allocations (claimed h db) db'
          (rw gate.whole
            (IsBacked-allocations_in (claimed h db) gate.warehouse req.items gate.covered))
          applied
          (relabelled s w env req.id (claimed h db).reservations db db (IsLedgered-refl s w db))
