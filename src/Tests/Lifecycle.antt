-- ===== src/Tests/Lifecycle.antt =====
-- The theorems on the life of a reservation, for one that was made and sold.
use inventory_service.Base.{
  All, pos, ◌≡◌, refl, subst, codes, [], ◌∷◌, none, arith, text_discrete, ℕ_discrete,
}
use inventory_service.Domain.Types.{released, committed, ReservationRequest}
use inventory_service.Domain.Errors.{ok, err, idempotency_conflict}
use inventory_service.Domain.Hash.{
  canonical_hash, canonical_text, sort_lines, place_line, encode_lines, format_int, digits,
}
use inventory_service.Store.Reservations.{find, find_reference}
use inventory_service.Reservations.Reserve.{reserve, read_expiry}
use inventory_service.Reservations.Transition.{release, commit}
use inventory_service.Reservations.Cases.{held_result, IsStorable}
use inventory_service.System.Calls.{Reach, here, next, commits_sale, after}
use inventory_service.Lifecycle.Replay.{second_time, hash_of, reserve_replay, reserve_order_taken}
use inventory_service.Lifecycle.Settled.{
  OfCall, IsReleased, IsSold, release_outcome, commit_outcome,
}
use inventory_service.Lifecycle.Effects.{Closes, IsClosed, release_exact, commit_exact}
use inventory_service.Reservations.Lines.{release_movement, commit_movement}
use inventory_service.Reservations.Held.{sum_at}
use inventory_service.Lifecycle.Later.{IsKept}
use inventory_service.Lifecycle.Histories.{Reach-IsKept}
use inventory_service.Lifecycle.Safety.{IsSpared, reserve_spares_safety_stock}
use inventory_service.Domain.Merge.{place_of}
use inventory_service.Tests.Data.{
  plain, calm, request, allocation, header, stocked, held_db, sold_db,
}
use inventory_service.Tests.Reservations.{reserve_run, commit_run}
use inventory_service.Tests.Invariants.{stocked-IsConsistent, held_db-IsConsistent}

reserve_replay_example :
    reserve plain (calm 9 held_db) request held_db
    ≡ (ok (second_time (held_result request (allocation ∷ []))), held_db)
reserve_replay_example =
    reserve_replay plain (calm 6 stocked) (calm 9 held_db) request
      (held_result request (allocation ∷ [])) stocked held_db stocked-IsConsistent reserve_run refl
      refl

-- The same order under another reservation id.
abbrev twin : ReservationRequest
twin = record request { id = codes "r2" }

twin-IsStorable : IsStorable plain twin (hash_of plain (calm 9 held_db) twin held_db)
unfolding read_expiry canonical_hash canonical_text sort_lines place_line encode_lines format_int
    digits
twin-IsStorable = record {
  expiry = none;
  reads = refl;
  id_fits = omega arith;
  order_fits = omega arith;
  hash_fits = omega arith;
}

reserve_order_taken_example :
    reserve plain (calm 9 held_db) twin held_db ≡ (err idempotency_conflict, held_db)
unfolding find find_reference text_discrete ℕ_discrete
reserve_order_taken_example =
    reserve_order_taken plain (calm 9 held_db) twin held_db header twin-IsStorable refl refl refl

release_outcome_example :
    OfCall
      (IsReleased (calm 7 held_db) (calm 8 held_db) (codes "r1") held_db)
      (release (calm 7 held_db) (codes "r1") (codes "gone") held_db)
release_outcome_example =
    release_outcome (calm 7 held_db) (calm 8 held_db) (codes "r1") held_db refl refl (codes "gone")

commit_outcome_example :
    OfCall
      (IsSold (calm 7 held_db) (calm 8 held_db) (codes "r1") held_db)
      (commit (calm 7 held_db) (codes "r1") held_db)
commit_outcome_example =
    commit_outcome (calm 7 held_db) (calm 8 held_db) (codes "r1") held_db refl refl

Reach-sale : Reach plain held_db sold_db
unfolding after
Reach-sale =
    subst (λ r. Reach plain held_db r.1) commit_run
      (next here (calm 7 held_db) (commits_sale (codes "r1")))

Reach-IsKept_example : IsKept (codes "r1") header held_db sold_db
unfolding find text_discrete ℕ_discrete
Reach-IsKept_example = Reach-IsKept (codes "r1") header held_db-IsConsistent refl Reach-sale

reserve_spares_safety_stock_example :
    All (λ a. IsSpared a.sku_id a.warehouse_id held_db.balances) (allocation ∷ [])
unfolding place_of
reserve_spares_safety_stock_example =
    reserve_spares_safety_stock plain (calm 6 stocked) request
      (held_result request (allocation ∷ [])) stocked held_db stocked-IsConsistent (refl, tt)
      reserve_run refl

release_exact_example :
    Closes
      (λ st now.
        (st ≡ released)
        × IsClosed
            (calm 7 held_db)
            (codes "r1")
            released
            (λ a. release_movement (calm 7 held_db) (codes "r1") a (codes "gone"))
            (λ s w todo. pos 0)
            held_db
            now)
      held_db
      (release (calm 7 held_db) (codes "r1") (codes "gone") held_db)
unfolding find text_discrete ℕ_discrete
release_exact_example = release_exact (calm 7 held_db) (codes "r1") (codes "gone") held_db refl

commit_exact_example :
    Closes
      (λ st now.
        (st ≡ committed)
        × IsClosed
            (calm 7 held_db)
            (codes "r1")
            committed
            (commit_movement (calm 7 held_db) (codes "r1"))
            (λ s w. sum_at s w)
            held_db
            now)
      held_db
      (commit (calm 7 held_db) (codes "r1") held_db)
unfolding find text_discrete ℕ_discrete
commit_exact_example = commit_exact (calm 7 held_db) (codes "r1") held_db refl
