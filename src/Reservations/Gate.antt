-- ===== src/Reservations/Gate.antt =====
-- What the check under the row locks has established when an allocation is made.
use inventory_service.Base.{
  GoString, ℤ, pos, ◌≤ℤ◌, ◌≡◌, refl, none, List, [], ◌∷◌, All, arith, inl, inr, Option-cases,
}
use inventory_service.Domain.Types.{Line, Allocation, Shortage}
use inventory_service.Domain.Errors.{ok}
use inventory_service.Store.Rows.{Balance}
use inventory_service.Store.Balances.{find, IsKeyed}
use inventory_service.Store.Database.{Db, Env}
use inventory_service.Store.Atp.{AtpMap, atp, or_zero, active_ids, fill, sku_ids_of}
use inventory_service.Reservations.Allocate.{
  allocate_reservation, allocate_in, lock_warehouse_atp, shortages_against, allocations_in, gated,
  locked_rows, choose, active_atp_snapshot,
}
use inventory_service.Reservations.AtpMaps.{entry, fill-locked_rows}
use inventory_service.Reservations.Loops.{IsBacked}

-- The ATP of the row that a key finds; 0 if there is none.
abbrev pub atp_at : GoString → ℤ → List Balance → ℤ
atp_at s w bs = or_zero (entry (find s w bs) none)

atp_nonneg : (b : Balance) → pos 0 ≤ℤ atp b
unfolding atp
atp_nonneg b = ground arith

-- No shortage: every line is covered.
shortages_against-nil :
    (m : AtpMap) (items : List Line)
    → shortages_against m items ≡ []
    → All (λ it. it.quantity ≤ℤ or_zero (m it.sku_id)) items
unfolding shortages_against
shortages_against-nil m [] h = tt
shortages_against-nil m (it ∷ items) h = ground (arith, shortages_against-nil m items)

abbrev pub IsCovered : ℤ → List Balance → Line → Type 0
IsCovered w bs it = it.quantity ≤ℤ atp_at it.sku_id w bs

pub record IsGated (db : Db) (items : List Line) (allocations : List Allocation) : Type 0 where
  pub warehouse : ℤ
  pub whole : allocations ≡ allocations_in warehouse items
  pub covered : All (IsCovered warehouse db.balances) items

locked-le-atp_at :
    (w : ℤ) (skus : List GoString) (s : GoString) (bs : List Balance)
    → IsKeyed bs
    → or_zero (fill (λ t. none) (locked_rows w skus bs) s) ≤ℤ atp_at s w bs
locked-le-atp_at w skus s bs k =
    rw (fill-locked_rows w skus s (λ t. none) bs k) (elim (Option-cases (find s w bs)) [
      | inl f ↦ rw f (ground arith)
      | inr (b, f) ↦ rw f (ground (arith, atp_nonneg b))
    ])

IsCovered-of_locked :
    (w : ℤ) (skus : List GoString) (bs : List Balance) (items : List Line)
    → IsKeyed bs
    → All (λ it. it.quantity ≤ℤ or_zero (fill (λ t. none) (locked_rows w skus bs) it.sku_id)) items
    → All (IsCovered w bs) items
IsCovered-of_locked w skus bs [] k h = tt
IsCovered-of_locked w skus bs (it ∷ items) k h = (
  omega (arith, h.0, locked-le-atp_at w skus it.sku_id bs k),
  IsCovered-of_locked w skus bs items k h.1,
)

gated-eq-ok :
    (db : Db) (items : List Line) (w : ℤ) (short : List Shortage) {allocations : List Allocation}
    → gated db items w short ≡ ok allocations
    → (short ≡ []) × (allocations ≡ allocations_in w items)
gated-eq-ok db items w [] h = (refl, cc)
gated-eq-ok db items w (x ∷ xs) h = absurd (cc h)

allocate_in-IsGated :
    (env : Env) (db : Db) (items : List Line) (w : ℤ) (allocations : List Allocation)
    → IsKeyed db.balances
    → allocate_in env db items w ≡ ok allocations
    → IsGated db items allocations
unfolding allocate_in lock_warehouse_atp
allocate_in-IsGated env db items w allocations k h = elim (Option-cases env.lock) [
  | inr (x, e) ↦ absurd (ground arith)
  | inl e ↦
      let m = fill (λ t. none) (locked_rows w (sku_ids_of items) db.balances) in
      let passed : gated db items w (shortages_against m items) ≡ ok allocations = ground arith in
      let (no_shortage, whole) = gated-eq-ok db items w _ {allocations = allocations} passed in
      record {
        warehouse = w;
        whole = whole;
        covered =
            IsCovered-of_locked w (sku_ids_of items) db.balances items k
              (shortages_against-nil m items no_shortage);
      }
]

-- In a store with at most one balance to a SKU and warehouse, and whatever the unlocked scan saw,
-- an allocation holds the whole basket in one warehouse, and the ATP of the rows there covers
-- every line.
pub allocate_reservation-IsGated :
    (env : Env) (db : Db) (items : List Line) (allocations : List Allocation)
    → IsKeyed db.balances
    → allocate_reservation env db items ≡ ok allocations
    → IsGated db items allocations
unfolding allocate_reservation
allocate_reservation-IsGated env db items allocations k h =
    elim (Option-cases (
      choose (active_atp_snapshot env.snapshot items) (active_ids env.snapshot.warehouses) items)) [
        | inl e ↦ absurd (ground arith)
        | inr (w, e) ↦ allocate_in-IsGated env db items w allocations k (ground arith)
      ]

-- Every allocation of something has its balance row.
pub IsBacked-allocations_in :
    (db : Db) (w : ℤ) (items : List Line)
    → All (IsCovered w db.balances) items
    → All (IsBacked db) (allocations_in w items)
unfolding allocations_in
IsBacked-allocations_in db w [] h = tt
IsBacked-allocations_in db w (it ∷ items) h =
    ((λ p gone. p (rw gone at h.0)), IsBacked-allocations_in db w items h.1)
