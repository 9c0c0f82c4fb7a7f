-- ===== src/Lifecycle/Placed.antt =====
-- The lines that a fresh reservation has, as they are read back.
use inventory_service.Base.{
  GoString, text_eq, ◌≡◌, refl, ◌∙◌, ap, none, List, [], ◌∷◌, map, keep, All, arith,
}
use inventory_service.Domain.Types.{Allocation}
use inventory_service.Domain.Errors.{ok}
use inventory_service.Store.Rows.{Header, ReservationLine}
use inventory_service.Store.Reservations.{find, in_lock_order, allocation_of}
use inventory_service.Store.Database.{Db, Env}
use inventory_service.Reservations.Reserve.{apply_reserve, load_reservation_lines}
use inventory_service.Reservations.Held.{IsKnown}
use inventory_service.Reservations.Loops.{IsBacked, apply_reserve_induction}

-- The last first, on top of what is there.
abbrev pub rev_onto {ℓ} : {A : Type ℓ} → List A → List A → List A
rev_onto [] ys = ys
rev_onto (x ∷ xs) ys = rev_onto xs (x ∷ ys)

-- The lines of a reservation, inserted one after the other.
abbrev pub stacked : GoString → List Allocation → List ReservationLine → List ReservationLine
stacked id [] ls = ls
stacked id (a ∷ rest) ls = stacked id rest (
    record {
      reservation_id = id;
      sku_id = a.sku_id;
      warehouse_id = a.warehouse_id;
      quantity = a.quantity;
    }
    ∷ ls)

keep-stacked :
    (id : GoString) (todo : List Allocation) (ls : List ReservationLine)
    → map allocation_of (keep (λ l. text_eq l.reservation_id id) (stacked id todo ls))
      ≡ rev_onto todo (map allocation_of (keep (λ l. text_eq l.reservation_id id) ls))
keep-stacked id [] ls = refl
keep-stacked id (a ∷ rest) ls = keep-stacked id rest _ ∙ ground arith

-- Before its reservation is made, an id has no lines.
keep_of_fresh :
    (id : GoString) (hs : List Header) (ls : List ReservationLine)
    → All (IsKnown hs) ls
    → find id hs ≡ none
    → keep (λ l. text_eq l.reservation_id id) ls ≡ []
keep_of_fresh id hs [] k f = refl
keep_of_fresh id hs (l ∷ ls) k f = ground (arith, keep_of_fresh id hs ls k.1 f)

-- What the loop of Reserve leaves in the two tables of reservations.
pub apply_reserve-frame :
    (env : Env) (id : GoString) (allocations : List Allocation) (db db' : Db)
    → All (IsBacked db) allocations
    → apply_reserve env id allocations db ≡ ok db'
    → (db'.reservations ≡ db.reservations) × (db'.lines ≡ stacked id allocations db.lines)
apply_reserve-frame env id allocations db db' backed h =
    apply_reserve_induction env id
      (λ todo now.
        (now.reservations ≡ db.reservations)
        × (stacked id todo now.lines ≡ stacked id allocations db.lines))
      (λ a rest now next done p.
        (done.step.reservations ∙ p.0, ap (stacked id rest) done.lines ∙ p.1))
      allocations db db' backed h (refl, refl)

-- A fresh reservation's lines are its allocations, in lock order.
pub load_reservation_lines-stacked :
    (id : GoString) (hs : List Header) (allocations : List Allocation) (db db' : Db)
    → All (IsKnown hs) db.lines
    → find id hs ≡ none
    → db'.lines ≡ stacked id allocations db.lines
    → load_reservation_lines db' id ≡ in_lock_order (rev_onto allocations [])
unfolding load_reservation_lines
load_reservation_lines-stacked id hs allocations db db' k f e =
    rw (e, keep-stacked id allocations db.lines, keep_of_fresh id hs db.lines k f) refl
