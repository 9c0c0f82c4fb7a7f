-- ===== src/Consistency/Reserving.antt =====
-- Reserve keeps the reservations and the balances consistent.
use inventory_service.Base.{
  GoString, ℤ, ◌+ℤ◌, ◌≡◌, ap, sym, ◌∙◌, true, none, List, [], ◌∷◌, All, arith, int_laws,
}
use inventory_service.Domain.Types.{Allocation, reserved, ReservationRequest}
use inventory_service.Store.Rows.{Header, ReservationLine}
use inventory_service.Store.Reservations.{find}
use inventory_service.Store.Database.{Db, Env, Runtime}
use inventory_service.Store.Ledger.{reserved_at, reserved_at-replace, moved}
use inventory_service.Reservations.Reserve.{reserve, reservation_movement}
use inventory_service.Reservations.Steps.{LineStep-IsStocked}
use inventory_service.Reservations.Lines.{ReserveStep, line_of}
use inventory_service.Reservations.Held.{held, held-new_header, IsKnown, is_open}
use inventory_service.Reservations.Gate.{allocate_reservation-IsGated, IsBacked-allocations_in}
use inventory_service.Reservations.Loops.{apply_reserve_induction}
use inventory_service.Reservations.Cases.{reserve_cases, claimed}
use inventory_service.Consistency.Defs.{IsConsistent}

IsKnown-claimed :
    (h : Header) (hs : List Header) (ls : List ReservationLine)
    → All (IsKnown hs) ls
    → All (IsKnown (h ∷ hs)) ls
unfolding find
IsKnown-claimed h hs [] k = tt
IsKnown-claimed h hs (l ∷ ls) k = (ground arith, IsKnown-claimed h hs ls k.1)

-- A claim holds nothing yet.
claimed-IsConsistent :
    (h : Header) (db : Db)
    → find h.id db.reservations ≡ none
    → IsConsistent db
    → IsConsistent (claimed h db)
claimed-IsConsistent h db f c = record {
  stocked = record {
    checked = c.stocked.checked;
    keyed = c.stocked.keyed;
    unique = c.stocked.unique;
  };
  known = IsKnown-claimed h db.reservations db.lines c.known;
  held = λ s w. c.held s w ∙ sym (held-new_header s w h db.reservations db.lines f c.known);
}

open_claimed :
    (h : Header) (db : Db) (id : GoString)
    → h.id ≡ id
    → h.status ≡ reserved
    → is_open (find id (claimed h db).reservations) ≡ true
unfolding find
open_claimed h db id e st = ground arith

module _ (env : Env) (id : GoString) (a : Allocation) (db db' : Db)
    (done : ReserveStep env id a db db') where
  moved-reserve :
      (s : GoString) (w : ℤ)
      → reserved_at s w db'.balances
        ≡ reserved_at s w db.balances +ℤ moved s w a.sku_id a.warehouse_id a.quantity
  unfolding reservation_movement
  moved-reserve s w = rw done.step.balances (
      reserved_at-replace s w a.sku_id a.warehouse_id done.step.before done.step.after a.quantity
        db.balances done.step.found done.step.key done.step.reserved)

  held-line :
      (s : GoString) (w : ℤ)
      → is_open (find id db.reservations) ≡ true
      → held s w db.reservations (line_of env id a ∷ db.lines)
        ≡ held s w db.reservations db.lines +ℤ moved s w a.sku_id a.warehouse_id a.quantity
  unfolding held
  held-line s w o = grind int_laws

  -- A round of the loop adds the same amount to the row and to the hold.
  ReserveStep-IsConsistent :
      is_open (find id db.reservations) ≡ true → IsConsistent db → IsConsistent db'
  ReserveStep-IsConsistent o c = record {
    stocked = LineStep-IsStocked a _ db db' done.step c.stocked;
    known = rw (done.step.reservations, done.lines) ((λ e. cc (done.known, e)), c.known);
    held = λ s w.
        rw (done.step.reservations, done.lines)
          (moved-reserve s w
            ∙ ap (λ t. t +ℤ moved s w a.sku_id a.warehouse_id a.quantity) (c.held s w)
            ∙ sym (held-line s w o));
  }

-- From a consistent store Reserve leads to a consistent one, however it ends, and what it adds to `reserved` is what the new reservation holds.
pub reserve-IsConsistent :
    (rt : Runtime) (env : Env) (req : ReservationRequest) (db : Db)
    → IsConsistent db
    → IsConsistent (reserve rt env req db).1
reserve-IsConsistent rt env req db c =
    reserve_cases (λ r. IsConsistent r.1) rt env req db (λ r _. c)
      λ h allocations db' new allocated applied.
        let gate =
          allocate_reservation-IsGated env (claimed h db) req.items allocations c.stocked.keyed
            allocated in
        (apply_reserve_induction env req.id
          (λ todo now. (is_open (find req.id now.reservations) ≡ true) × IsConsistent now)
          (λ a rest now next done p. (
            rw done.step.reservations p.0,
            ReserveStep-IsConsistent env req.id a now next done p.0 p.1,
          ))
          allocations (claimed h db) db'
          (rw gate.whole
            (IsBacked-allocations_in (claimed h db) gate.warehouse req.items gate.covered))
          applied
          (open_claimed h db req.id new.id new.status, claimed-IsConsistent h db new.fresh c)).1
