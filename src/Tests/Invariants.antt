-- ===== src/Tests/Invariants.antt =====
-- The theorems on reachable states, for a receipt, a hold and a sale.
use inventory_service.Base.{◌≡◌, codes, pos, ◌≤ℤ◌, subst}
use inventory_service.Store.Movements.{ledger_on_hand, ledger_reserved}
use inventory_service.Store.Ledger.{on_hand_at, reserved_at}
use inventory_service.Stock.Commands.{receipt}
use inventory_service.Reservations.Held.{held}
use inventory_service.Consistency.Defs.{IsConsistent}
use inventory_service.System.Integrity.{Reach-IsIntact}
use inventory_service.Consistency.Schema.{IsIntact}
use inventory_service.System.Calls.{Reach, here, next, reserves, commits_sale, stocks, after}
use inventory_service.System.Invariants.{
  migrated-IsConsistent, Reach-IsConsistent, no_oversell, ledger_reconciles,
}
use inventory_service.Tests.Data.{
  plain, depot, calm, receipt_of_ten, request, empty, stocked, held_db, sold_db,
}
use inventory_service.Tests.Stock.{receipt_run}
use inventory_service.Tests.Reservations.{reserve_run, commit_run}

empty-IsConsistent : IsConsistent empty
empty-IsConsistent = migrated-IsConsistent depot

Reach-stocked : Reach plain empty stocked
unfolding after
Reach-stocked =
    subst (λ r. Reach plain empty r.1) receipt_run
      (next here (calm 5 empty) (stocks receipt receipt_of_ten))

Reach-held : Reach plain empty held_db
unfolding after
Reach-held =
    subst (λ r. Reach plain empty r.1) reserve_run
      (next Reach-stocked (calm 6 stocked) (reserves request))

Reach-sold : Reach plain empty sold_db
unfolding after
Reach-sold =
    subst (λ r. Reach plain empty r.1) commit_run
      (next Reach-held (calm 7 held_db) (commits_sale (codes "r1")))

no_oversell_example :
    (pos 0 ≤ℤ held (codes "A") (pos 1) held_db.reservations held_db.lines)
    × (held (codes "A") (pos 1) held_db.reservations held_db.lines
        ≤ℤ on_hand_at (codes "A") (pos 1) held_db.balances)
no_oversell_example = no_oversell (codes "A") (pos 1) Reach-held

ledger_reconciles_example :
    (on_hand_at (codes "A") (pos 1) sold_db.balances
      ≡ ledger_on_hand (codes "A") (pos 1) sold_db.movements)
    × (reserved_at (codes "A") (pos 1) sold_db.balances
        ≡ ledger_reserved (codes "A") (pos 1) sold_db.movements)
ledger_reconciles_example = ledger_reconciles (codes "A") (pos 1) Reach-sold

pub stocked-IsConsistent : IsConsistent stocked
stocked-IsConsistent = Reach-IsConsistent empty-IsConsistent Reach-stocked

pub held_db-IsConsistent : IsConsistent held_db
held_db-IsConsistent = Reach-IsConsistent empty-IsConsistent Reach-held

empty-IsIntact : IsIntact empty
empty-IsIntact = record {
  ids = tt;
  references = tt;
  lines = tt;
  quantities = tt;
  lines_placed = tt;
  balances_placed = tt;
  movements_placed = tt;
}

Reach-IsIntact_example : IsConsistent sold_db × IsIntact sold_db
Reach-IsIntact_example = Reach-IsIntact empty-IsConsistent empty-IsIntact Reach-sold

pub held_db-IsIntact : IsIntact held_db
held_db-IsIntact = (Reach-IsIntact empty-IsConsistent empty-IsIntact Reach-held).1
