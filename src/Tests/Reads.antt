-- ===== src/Tests/Reads.antt =====
-- The theorems on availability, in the state after a hold.
use inventory_service.Base.{
  ◌≡◌, ◌↔◌, GoString, codes, ◌+ℤ◌, ◌-ℤ◌, IsInt64, [], ◌∷◌, refl, arith, List, map, true,
}
use inventory_service.Domain.Types.{Allocation}
use inventory_service.Domain.Errors.{ok}
use inventory_service.Store.Atp.{atp}
use inventory_service.Reservations.Allocate.{allocate_reservation}
use inventory_service.Availability.Queries.{steady}
use inventory_service.Availability.Service.{
  repository, check_availability, batch_get_availability, CheckResult,
}
use inventory_service.Availability.Check.{IsExplained, OfResult, check_availability-IsExplained}
use inventory_service.Availability.Names.{IsNamed, check_availability-IsNamed}
use inventory_service.Availability.Agreement.{check_availability_exact, allocate_reservation_exact}
use inventory_service.Availability.Covers.{Fulfillable}
use inventory_service.Availability.Batch.{batch_get_availability_exact}
use inventory_service.Availability.Groups.{total, truth}
use inventory_service.Tests.Data.{calm, three, held_db}
use inventory_service.Tests.Invariants.{held_db-IsConsistent}

check_availability-IsExplained_example :
    OfResult IsExplained (check_availability (repository (steady held_db)) (three ∷ []))
check_availability-IsExplained_example =
    check_availability-IsExplained (repository (steady held_db)) three []

check_availability_exact_example :
    (r : CheckResult) × (check_availability (repository (steady held_db)) (three ∷ []) ≡ ok r)
    × ((r.can_fulfill ≡ true) ↔ Fulfillable held_db (three ∷ []))
check_availability_exact_example =
    check_availability_exact held_db (three ∷ []) held_db-IsConsistent.stocked.keyed
      ((λ h. omega (arith, h)), tt)

allocate_reservation_exact_example :
    ((allocations : List Allocation) × (allocate_reservation (calm 7 held_db) held_db (three ∷ [])
        ≡ ok allocations))
    ↔ Fulfillable held_db (three ∷ [])
allocate_reservation_exact_example =
    allocate_reservation_exact (calm 7 held_db) held_db (three ∷ [])
      held_db-IsConsistent.stocked.keyed refl refl

total_fits : (s : GoString) → IsInt64 (total held_db.warehouses s held_db.balances)
unfolding total atp ◌+ℤ◌ ◌-ℤ◌
total_fits s = ground arith

batch_get_availability_exact_example :
    batch_get_availability (repository (steady held_db)) (codes "A" ∷ codes "B" ∷ [])
    ≡ ok (map (truth held_db) (codes "A" ∷ codes "B" ∷ []))
batch_get_availability_exact_example =
    batch_get_availability_exact held_db (codes "A" ∷ codes "B" ∷ []) total_fits

check_availability-IsNamed_example :
    OfResult (IsNamed held_db) (check_availability (repository (steady held_db)) (three ∷ []))
check_availability-IsNamed_example =
    check_availability-IsNamed held_db (three ∷ []) held_db-IsConsistent.stocked.keyed
