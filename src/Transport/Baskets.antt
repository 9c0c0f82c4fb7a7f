-- ===== src/Transport/Baskets.antt =====
-- The two edges look at a basket in the same way.
use inventory_service.Base.{
  ◌≡◌, refl, List, [], ◌∷◌, none, arith, Bool-cases, inl, inr, leb, length, ◌&&◌,
}
use inventory_service.Domain.Types.{Line}
use inventory_service.Domain.Errors.{Result, ok, err, Result-cases}
use inventory_service.Domain.Aggregate.{Aggregation, aggregate, aggregate_all, aggregate_lines}
use inventory_service.Transport.Server.{checked_lines, reservation_lines}
use inventory_service.Transport.Reads.{basket, basket_all}

-- The lines, if they pass, all together.
abbrev pub aggregated : Aggregation → Result (List Line) → Result (List Line)
aggregated a (err e) = err e
aggregated a (ok lines) = ok (aggregate_all lines a).out

basket_all-checked_lines :
    (items : List Line) (a : Aggregation) → basket_all items a ≡ aggregated a (checked_lines items)
unfolding basket_all checked_lines aggregate_all
basket_all-checked_lines [] a = refl
basket_all-checked_lines (it ∷ items) a =
    let rest = basket_all-checked_lines items (aggregate it a) in
    elim (Result-cases (checked_lines items)) [
      | inl (lines, e) ↦ ground (arith, rest, e)
      | inr (x, e) ↦ ground (arith, rest, e)
    ]

-- CheckAvailability on the wire asks about exactly the lines that Reserve on the wire would hold: it
-- refuses the lines that Reserve refuses, and sums the others up as AggregateLines does.
pub basket-reservation_lines :
    (items : List Line)
    → basket items
      ≡ (elim (reservation_lines items) [ err e ↦ err e | ok lines ↦ ok (aggregate_lines lines) ])
unfolding basket reservation_lines aggregate_lines
basket-reservation_lines items =
    let whole = basket_all-checked_lines items (record { out = []; index = λ s. none }) in
    elim (Bool-cases (leb 1 (length items) && leb (length items) 100)) [
      | inl y ↦
          rw (y, whole)
            (elim (Result-cases (checked_lines items)) [
              | inl (lines, e) ↦ rw e refl
              | inr (x, e) ↦ rw e refl
            ])
      | inr n ↦ rw n refl
    ]
