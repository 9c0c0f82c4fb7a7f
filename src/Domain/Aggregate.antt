-- ===== src/Domain/Aggregate.antt =====
-- AggregateLines of internal/core/domain/reservation.go.
use inventory_service.Base.{
  ℕ, zero, suc, GoString, text_eq, add64, Option, none, some, List, [], ◌∷◌, ◌++◌, length,
  if◌then◌else◌,
}
use inventory_service.Domain.Types.{Line}

-- The variables of the loop: the lines so far, and for each SKU the place of its line.
pub record Aggregation : Type 0 where
  pub out : List Line
  pub index : GoString → Option ℕ

-- `out[i].Quantity += it.Quantity`. The loop only asks for places that are there.
unfoldable pub add_at : ℕ → Line → List Line → List Line
add_at i it [] = []
add_at zero it (x ∷ xs) = record x { quantity = add64 x.quantity it.quantity } ∷ xs
add_at (suc i) it (x ∷ xs) = x ∷ add_at i it xs

unfoldable pub aggregate : Line → Aggregation → Aggregation
aggregate it a = elim (a.index it.sku_id) [
  | some i ↦ record a { out = add_at i it a.out }
  | none ↦ record {
    out = a.out ++ it ∷ [];
    index = λ s. if text_eq it.sku_id s then some (length a.out) else a.index s;
  }
]

unfoldable pub aggregate_all : List Line → Aggregation → Aggregation
aggregate_all [] a = a
aggregate_all (it ∷ items) a = aggregate_all items (aggregate it a)

unfoldable pub aggregate_lines : List Line → List Line
aggregate_lines items = (aggregate_all items (record { out = []; index = λ s. none })).out
