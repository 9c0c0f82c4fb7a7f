-- ===== src/Tests/Lines.antt =====
-- The theorems on AggregateLines, on lines that name a SKU twice.
use inventory_service.Base.{◌≡◌, GoString, codes, pos, List, [], ◌∷◌, arith, ◌+ℤ◌}
use inventory_service.Domain.Types.{Line}
use inventory_service.Domain.Aggregate.{aggregate_lines}
use inventory_service.Domain.Merge.{merge_all, aggregate_lines-merge_all}
use inventory_service.Domain.Demand.{IsDistinct, demand, volume, aggregate_lines_exact}
use inventory_service.Tests.Data.{three}

abbrev twice : List Line
twice = three ∷ record { sku_id = codes "B"; quantity = pos 2 } ∷ three ∷ []

aggregate_lines-merge_all_example : aggregate_lines twice ≡ merge_all twice []
aggregate_lines-merge_all_example = aggregate_lines-merge_all twice

aggregate_lines_exact_example :
    IsDistinct (aggregate_lines twice)
    × ((s : GoString) → demand s (aggregate_lines twice) ≡ demand s twice)
unfolding volume ◌+ℤ◌
aggregate_lines_exact_example =
    aggregate_lines_exact twice (omega arith, (omega arith, (omega arith, tt)))
      (omega arith, omega arith)
