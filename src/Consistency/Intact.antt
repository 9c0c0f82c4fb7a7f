-- ===== src/Consistency/Intact.antt =====
-- Reserve, Release and Commit keep the keys, the foreign keys and the CHECK of the other tables.
use inventory_service.Base.{GoString, ◌≡◌, refl, All, none, Option}
use inventory_service.Domain.Types.{Allocation, Status, ReservationRequest, released, committed}
use inventory_service.Domain.Errors.{Result, ok}
use inventory_service.Store.Rows.{Header, Movement, Balance}
use inventory_service.Store.Reservations.{find, find_reference, set_status}
use inventory_service.Store.Database.{Db, Env, Runtime}
use inventory_service.Store.Balances.{IsKeyed}
use inventory_service.Reservations.Reserve.{reserve, reservation_movement, load_reservation_lines}
use inventory_service.Reservations.Transition.{
  Decision, transition, decide_release, decide_commit, release_line, commit_line, release, commit,
}
use inventory_service.Reservations.Steps.{LineStep}
use inventory_service.Reservations.Lines.{
  ReserveStep, ReturnStep, reserve_movement, release_movement, commit_movement,
  release_line-ReturnStep, commit_line-ReturnStep,
}
use inventory_service.Reservations.Gate.{allocate_reservation-IsGated, IsBacked-allocations_in}
use inventory_service.Reservations.Loops.{apply_reserve_induction, apply_lines_induction}
use inventory_service.Reservations.Cases.{reserve_cases, transition_cases, claimed}
use inventory_service.Consistency.Schema.{
  IsIntact, IsPlaced, set_status-IsUniqueId, set_status-IsUniqueReference, replace-All,
}

claimed-IsIntact :
    (h : Header) (db : Db)
    → find h.id db.reservations ≡ none
    → find_reference h.external_reference db.reservations ≡ none
    → IsIntact db
    → IsIntact (claimed h db)
claimed-IsIntact h db f r i = record {
  ids = (f, i.ids);
  references = (r, i.references);
  lines = i.lines;
  quantities = i.quantities;
  lines_placed = i.lines_placed;
  balances_placed = i.balances_placed;
  movements_placed = i.movements_placed;
}

-- The balance and the movement of a round stand at a warehouse that exists.
module _ (a : Allocation) (m : Movement) (db db' : Db) (step : LineStep a m db db')
    (at : m.warehouse_id ≡ a.warehouse_id) where
  LineStep-balances-IsPlaced :
      IsIntact db → All (λ (b : Balance). IsPlaced db'.warehouses b.warehouse_id) db'.balances
  LineStep-balances-IsPlaced i =
      rw (step.balances, step.warehouses)
        (replace-All (λ (b : Balance). IsPlaced db.warehouses b.warehouse_id) a.sku_id
          a.warehouse_id step.after db.balances (rw (step.key.1, ← at) step.placed)
          i.balances_placed)

  LineStep-movements-IsPlaced :
      IsIntact db → All (λ (n : Movement). IsPlaced db'.warehouses n.warehouse_id) db'.movements
  LineStep-movements-IsPlaced i =
      rw (step.warehouses, step.movements) (step.placed, i.movements_placed)

ReserveStep-IsIntact :
    (env : Env) (id : GoString) (a : Allocation) (db db' : Db)
    → ReserveStep env id a db db'
    → IsIntact db
    → IsIntact db'
unfolding reservation_movement
ReserveStep-IsIntact env id a db db' done i =
    let m = reserve_movement env id a in
    record {
      ids = rw done.step.reservations i.ids;
      references = rw done.step.reservations i.references;
      lines = rw done.lines (done.unlisted, i.lines);
      quantities = rw done.lines (done.positive, i.quantities);
      lines_placed = rw (done.step.warehouses, done.lines) (done.step.placed, i.lines_placed);
      balances_placed = LineStep-balances-IsPlaced a m db db' done.step refl i;
      movements_placed = LineStep-movements-IsPlaced a m db db' done.step refl i;
    }

ReturnStep-IsIntact :
    (env : Env) (id : GoString) (a : Allocation) (m : Movement) (db db' : Db)
    → m.warehouse_id ≡ a.warehouse_id
    → ReturnStep env id a m db db'
    → IsIntact db
    → IsIntact db'
ReturnStep-IsIntact env id a m db db' at done i = record {
  ids = rw done.step.reservations i.ids;
  references = rw done.step.reservations i.references;
  lines = rw done.lines i.lines;
  quantities = rw done.lines i.quantities;
  lines_placed = rw (done.lines, done.step.warehouses) i.lines_placed;
  balances_placed = LineStep-balances-IsPlaced a m db db' done.step at i;
  movements_placed = LineStep-movements-IsPlaced a m db db' done.step at i;
}

pub reserve-IsIntact :
    (rt : Runtime) (env : Env) (req : ReservationRequest) (db : Db)
    → IsKeyed db.balances
    → IsIntact db
    → IsIntact (reserve rt env req db).1
reserve-IsIntact rt env req db keyed i =
    reserve_cases (λ r. IsIntact r.1) rt env req db (λ r _. i)
      λ h allocations db' new allocated applied.
        let gate =
          allocate_reservation-IsGated env (claimed h db) req.items allocations keyed allocated in
        apply_reserve_induction env req.id (λ todo now. IsIntact now)
          (λ a rest now next done p. ReserveStep-IsIntact env req.id a now next done p) allocations
          (claimed h db) db'
          (rw gate.whole
            (IsBacked-allocations_in (claimed h db) gate.warehouse req.items gate.covered))
          applied (claimed-IsIntact h db new.fresh new.unused i)

module _ (env : Env) (id : GoString) (target : Status) (db : Db) (i : IsIntact db) where
  set_status-IsIntact :
      (now : Db)
      → IsIntact now
      → IsIntact (record now { reservations = set_status id target env.now now.reservations })
  set_status-IsIntact now p = record {
    ids = set_status-IsUniqueId id target env.now now.reservations p.ids;
    references = set_status-IsUniqueReference id target env.now now.reservations p.references;
    lines = p.lines;
    quantities = p.quantities;
    lines_placed = p.lines_placed;
    balances_placed = p.balances_placed;
    movements_placed = p.movements_placed;
  }

  transition-IsIntact :
      (decide : Option Status → Decision) (apply_line : Allocation → Db → Result Db)
      → ((a : Allocation) (now next : Db)
          → apply_line a now ≡ ok next
          → IsIntact now
          → IsIntact next)
      → IsIntact (transition env id target decide apply_line db).1
  transition-IsIntact decide apply_line each =
      transition_cases (λ r. IsIntact r.1) env id target decide apply_line db (λ e. i) (λ st d. i)
        λ db' p applied. set_status-IsIntact db' (
          apply_lines_induction apply_line (λ todo now. IsIntact now)
            (λ a rest now next e q. each a now next e q) (load_reservation_lines db id) db db'
            applied i)

pub release-IsIntact :
    (env : Env) (id reason : GoString) (db : Db)
    → IsIntact db
    → IsIntact (release env id reason db).1
unfolding release reservation_movement
release-IsIntact env id reason db i =
    transition-IsIntact env id released db i decide_release (release_line env id reason)
      λ a now next e.
        ReturnStep-IsIntact env id a (release_movement env id a reason) now next refl
          (release_line-ReturnStep env id a reason now next e)

pub commit-IsIntact :
    (env : Env) (id : GoString) (db : Db) → IsIntact db → IsIntact (commit env id db).1
unfolding commit reservation_movement
commit-IsIntact env id db i =
    transition-IsIntact env id committed db i decide_commit (commit_line env id) λ a now next e.
      ReturnStep-IsIntact env id a (commit_movement env id a) now next refl
        (commit_line-ReturnStep env id a now next e)
