-- ===== src/Tests/Unhindered.antt =====
-- The theorems on calls that nothing hinders, for the reservation of three.
use inventory_service.Base.{
  ◌≡◌, refl, codes, arith, text_discrete, ℕ_discrete, int_discrete, ◌+ℤ◌, ◌-ℤ◌,
}
use inventory_service.Domain.Types.{released, committed}
use inventory_service.Domain.Errors.{ok}
use inventory_service.Store.Movements.{find_command, check_movement}
use inventory_service.Store.Reservations.{find, place, in_lock_order}
use inventory_service.Reservations.Reserve.{
  load_reservation_lines, reservation_movement, command_id_of,
}
use inventory_service.Reservations.Transition.{release, commit}
use inventory_service.Reservations.Lines.{release_movement, commit_movement}
use inventory_service.Lifecycle.Unhindered.{IsClear, release_unhindered, commit_unhindered}
use inventory_service.Tests.Data.{calm, held_db}
use inventory_service.Tests.Invariants.{held_db-IsConsistent, held_db-IsIntact}

release-IsClear :
    IsClear held_db
      (codes "r1")
      (calm 7 held_db)
      (λ a. release_movement (calm 7 held_db) (codes "r1") a (codes "gone"))
unfolding find_command check_movement load_reservation_lines in_lock_order place
    reservation_movement command_id_of text_discrete ℕ_discrete int_discrete ◌+ℤ◌ ◌-ℤ◌
release-IsClear = record {
  begins = refl;
  locks = refl;
  finishes = refl;
  room = ((ground arith, ground arith), tt);
  fits = (refl, tt);
  fresh = (refl, tt);
}

commit-IsClear :
    IsClear held_db (codes "r1") (calm 7 held_db) (commit_movement (calm 7 held_db) (codes "r1"))
unfolding find_command check_movement load_reservation_lines in_lock_order place
    reservation_movement command_id_of text_discrete ℕ_discrete int_discrete ◌+ℤ◌ ◌-ℤ◌
commit-IsClear = record {
  begins = refl;
  locks = refl;
  finishes = refl;
  room = ((ground arith, ground arith), tt);
  fits = (refl, tt);
  fresh = (refl, tt);
}

release_unhindered_example :
    (release (calm 7 held_db) (codes "r1") (codes "gone") held_db).0 ≡ ok released
unfolding find text_discrete ℕ_discrete
release_unhindered_example =
    release_unhindered held_db (codes "r1") (calm 7 held_db) (codes "gone") held_db-IsConsistent
      held_db-IsIntact refl release-IsClear

commit_unhindered_example : (commit (calm 7 held_db) (codes "r1") held_db).0 ≡ ok committed
unfolding find text_discrete ℕ_discrete
commit_unhindered_example =
    commit_unhindered held_db (codes "r1") (calm 7 held_db) held_db-IsConsistent held_db-IsIntact
      refl commit-IsClear
