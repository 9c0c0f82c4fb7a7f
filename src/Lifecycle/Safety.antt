-- ===== src/Lifecycle/Safety.antt =====
-- A hold and the safety stock.
use inventory_service.Base.{
  GoString, text_eq, ℤ, pos, ◌≤ℤ◌, ◌+ℤ◌, int_laws, ◌≡◌, refl, ◌∙◌, ap, subst, Bool, Bool-cases,
  true, false, ◌||◌, none, some, List, [], ◌∷◌, All, arith, inl, inr,
}
use inventory_service.Domain.Types.{Line, Allocation, ReservationRequest, ReservationResult}
use inventory_service.Domain.Errors.{Result, ok, err}
use inventory_service.Domain.Merge.{place_of}
use inventory_service.Domain.Demand.{IsDistinct}
use inventory_service.Store.Rows.{Balance}
use inventory_service.Store.Balances.{find, find-replace_self, find-replace_ne}
use inventory_service.Store.Database.{Db, Env, Runtime}
use inventory_service.Store.Atp.{atp}
use inventory_service.Reservations.Allocate.{allocations_in}
use inventory_service.Reservations.Reserve.{reserve, reservation_movement}
use inventory_service.Reservations.Lines.{ReserveStep}
use inventory_service.Reservations.Loops.{apply_reserve_induction}
use inventory_service.Reservations.Gate.{
  IsCovered, atp_at, allocate_reservation-IsGated, IsBacked-allocations_in,
}
use inventory_service.Reservations.Cases.{reserve_cases, claimed, IsReplayed}
use inventory_service.Consistency.Defs.{IsConsistent}

-- What is reserved leaves the safety stock on hand.
abbrev pub IsSpared : GoString → ℤ → List Balance → Type 0
IsSpared s w bs = (b : Balance) → find s w bs ≡ some b → b.reserved +ℤ b.safety_stock ≤ℤ b.on_hand

abbrev has_sku : GoString → List Allocation → Bool
has_sku s [] = false
has_sku s (a ∷ rest) = text_eq a.sku_id s || has_sku s rest

abbrev IsSkuDistinct : List Allocation → Type 0
IsSkuDistinct [] = Unit
IsSkuDistinct (a ∷ rest) = (has_sku a.sku_id rest ≡ false) × IsSkuDistinct rest

-- A covered quantity leaves the safety stock.
covered-leaves :
    (before after : Balance) (q : ℤ)
    → q ≤ℤ atp before
    → ¬ (q ≤ℤ pos 0)
    → after.reserved ≡ before.reserved +ℤ q
    → after.on_hand ≡ before.on_hand +ℤ pos 0
    → after.safety_stock ≡ before.safety_stock
    → after.reserved +ℤ after.safety_stock ≤ℤ after.on_hand
unfolding atp
covered-leaves before after q c p r o f = rw (r, o, f) (grind int_laws)

module _ (env : Env) (id : GoString) (s : GoString) (w : ℤ) where
  -- Half way through the loop, for one SKU: its line is covered, or has been applied.
  record IsPending (todo : List Allocation) (now : Db) : Type 0 where
    distinct : IsSkuDistinct todo
    placed : All (λ a. a.warehouse_id ≡ w) todo
    waiting :
        has_sku s todo ≡ true → All (λ a. a.sku_id ≡ s → a.quantity ≤ℤ atp_at s w now.balances) todo
    spared : has_sku s todo ≡ false → IsSpared s w now.balances

  IsPending-step :
      (a : Allocation) (rest : List Allocation) (now next : Db)
      → ReserveStep env id a now next
      → IsPending (a ∷ rest) now
      → IsPending rest next
  unfolding reservation_movement
  IsPending-step a rest now next done p = elim (Bool-cases (text_eq a.sku_id s)) [
    | inl y ↦
        let same : a.sku_id ≡ s = ground arith in
        let gone : has_sku s rest ≡ false = rw same at (p.distinct.0) in
        let there : find s w now.balances ≡ some done.step.before =
          rw (same, p.placed.0) at (done.step.found) in
        let stored : find s w next.balances ≡ some done.step.after =
          rw (same, p.placed.0) at
            (ap (find a.sku_id a.warehouse_id) done.step.balances
              ∙ find-replace_self a.sku_id a.warehouse_id done.step.after {b = done.step.before}
                  now.balances done.step.key done.step.found) in
        let covered : a.quantity ≤ℤ atp done.step.before =
          rw there at ((p.waiting (rw y refl)).0 same) in
        record {
          distinct = p.distinct.1;
          placed = p.placed.1;
          waiting = λ again. absurd (cc (again, gone));
          spared = λ _ b f.
              let it : done.step.after ≡ b = cc (f, stored) in
              subst (λ x. x.reserved +ℤ x.safety_stock ≤ℤ x.on_hand) it
                (covered-leaves done.step.before done.step.after a.quantity covered done.positive
                  done.step.reserved done.step.on_hand done.step.safety_stock);
        }
    | inr n ↦
        let kept : find s w next.balances ≡ find s w now.balances =
          ap (find s w) done.step.balances
          ∙ find-replace_ne a.sku_id a.warehouse_id s w done.step.after now.balances done.step.key
              (λ h. ground (arith, h.0)) in
        record {
          distinct = p.distinct.1;
          placed = p.placed.1;
          waiting = λ h. rw kept ((p.waiting (rw n h)).1);
          spared = λ h. rw kept (p.spared (rw n h));
        }
  ]

-- The allocations of a basket, at the start of the loop.
module _ (w : ℤ) where
  has_sku-allocations_in :
      (s : GoString) (items : List Line)
      → place_of s items ≡ none
      → has_sku s (allocations_in w items) ≡ false
  unfolding allocations_in place_of
  has_sku-allocations_in s [] h = refl
  has_sku-allocations_in s (it ∷ items) h = ground (arith, has_sku-allocations_in s items)

  IsSkuDistinct-allocations_in :
      (items : List Line) → IsDistinct items → IsSkuDistinct (allocations_in w items)
  unfolding allocations_in
  IsSkuDistinct-allocations_in [] h = tt
  IsSkuDistinct-allocations_in (it ∷ items) h =
      (has_sku-allocations_in it.sku_id items h.0, IsSkuDistinct-allocations_in items h.1)

  placed-allocations_in :
      (items : List Line) → All (λ a. a.warehouse_id ≡ w) (allocations_in w items)
  unfolding allocations_in
  placed-allocations_in [] = tt
  placed-allocations_in (it ∷ items) = (refl, placed-allocations_in items)

  waiting-allocations_in :
      (s : GoString) (bs : List Balance) (items : List Line)
      → All (IsCovered w bs) items
      → All (λ a. a.sku_id ≡ s → a.quantity ≤ℤ atp_at s w bs) (allocations_in w items)
  unfolding allocations_in
  waiting-allocations_in s bs [] h = tt
  waiting-allocations_in s bs (it ∷ items) h =
      ((λ e. rw e at (h.0)), waiting-allocations_in s bs items h.1)

  IsSpared-allocations_in :
      (bs : List Balance) (items : List Line)
      → ((s : GoString) → has_sku s (allocations_in w items) ≡ true → IsSpared s w bs)
      → All (λ a. IsSpared a.sku_id a.warehouse_id bs) (allocations_in w items)
  unfolding allocations_in
  IsSpared-allocations_in bs [] h = tt
  IsSpared-allocations_in bs (it ∷ items) h =
      (h it.sku_id (ground arith), IsSpared-allocations_in bs items (λ s e. h s (ground arith)))

-- What a call that makes a reservation leaves of the safety stock.
abbrev IsSparing : Result ReservationResult × Db → Type 0
IsSparing (err e, now) = Unit
IsSparing (ok x, now) =
    x.replayed ≡ false → All (λ a. IsSpared a.sku_id a.warehouse_id now.balances) x.allocations

-- A reservation that Reserve makes from a consistent state for a basket with one line to a SKU leaves
-- the safety stock alone: of every SKU that it holds, in the warehouse where it holds it, what is
-- reserved and the safety stock together are on hand.
pub reserve_spares_safety_stock :
    (rt : Runtime) (env : Env) (req : ReservationRequest) (x : ReservationResult) (db db' : Db)
    → IsConsistent db
    → IsDistinct req.items
    → reserve rt env req db ≡ (ok x, db')
    → x.replayed ≡ false
    → All (λ a. IsSpared a.sku_id a.warehouse_id db'.balances) x.allocations
reserve_spares_safety_stock rt env req x db db' c distinct done = subst IsSparing done (
    reserve_cases IsSparing rt env req db
      (λ r again.
        elim r as (λ r. IsReplayed r → IsSparing (r, db)) [
          | err e ↦ λ _. tt
          | ok y ↦ λ again no. absurd (cc (again y refl, no))
        ]
          again)
      (λ h allocations now new allocated applied _.
        let gate =
          allocate_reservation-IsGated env (claimed h db) req.items allocations c.stocked.keyed
            allocated in
        let w = gate.warehouse in
        let pending : (s : GoString)
            → has_sku s (allocations_in w req.items) ≡ true
            → IsPending env req.id s w (allocations_in w req.items) (claimed h db) =
          λ s e. record {
            distinct = IsSkuDistinct-allocations_in w req.items distinct;
            placed = placed-allocations_in w req.items;
            waiting = λ _. waiting-allocations_in w s db.balances req.items gate.covered;
            spared = λ no. absurd (cc (e, no));
          } in
        rw gate.whole (
          IsSpared-allocations_in w now.balances req.items (λ s e.
            (apply_reserve_induction env req.id (IsPending env req.id s w)
                (IsPending-step env req.id s w) (allocations_in w req.items) (claimed h db) now
                (IsBacked-allocations_in (claimed h db) w req.items gate.covered)
                (rw gate.whole at applied) (pending s e)).spared
              refl))))
