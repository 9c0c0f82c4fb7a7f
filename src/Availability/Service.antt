-- ===== src/Availability/Service.antt =====
-- internal/logic/v1/availability.go. A CheckItem has the fields of a domain.Line. Metrics and spans
-- are left out: they decide nothing.
use inventory_service.Base.{
  GoString, ℤ, pos, ltb_ℤ, leb_ℤ, Bool, true, false, not, ◌||◌, if◌then◌else◌, Option, none, some,
  List, [], ◌∷◌, map, keep,
}
use inventory_service.Domain.Types.{Line, Shortage}
use inventory_service.Domain.Errors.{Result, ok, err, non_positive_quantity, ◌>>=◌}
use inventory_service.Store.Atp.{AtpMap, or_zero}
use inventory_service.Availability.Queries.{
  Reads, batch_atp, active_warehouse_balances, tracked_skus,
}

pub data AvailabilityStatus : Type 0 where
  unknown in_stock low_stock out_of_stock : AvailabilityStatus

pub record SkuAvailability : Type 0 where
  pub sku_id : GoString
  pub status : AvailabilityStatus
  pub atp : ℤ

pub record CheckResult : Type 0 where
  pub can_fulfill : Bool
  pub shortages : List Shortage
  pub unknown_sku_ids : List GoString

-- The repository that the service depends on.
pub record AvailabilityReader : Type 0 where
  pub read_atp : List GoString → Result AtpMap
  pub read_balances : List GoString → Result ((ℤ → AtpMap) × List ℤ)
  pub read_tracked : List GoString → Result (GoString → Bool)

-- AvailabilityRepository as that interface.
abbrev pub repository : Reads → AvailabilityReader
repository reads = record {
  read_atp = batch_atp reads;
  read_balances = active_warehouse_balances reads;
  read_tracked = tracked_skus reads;
}

abbrev pub low_stock_threshold : ℤ
low_stock_threshold = pos 5

-- statusFor
unfoldable pub status_for : ℤ → AvailabilityStatus
status_for atp =
    if leb_ℤ atp (pos 0)
    then out_of_stock
    else if ltb_ℤ atp low_stock_threshold
    then low_stock
    else in_stock

-- `_, ok := m[id]`
abbrev pub has : Option ℤ → Bool
has none = false
has (some _) = true

-- The ids that a map has no entry for.
unfoldable pub absent_from : AtpMap → List GoString → List GoString
absent_from m = keep (λ s. not (has (m s)))

-- The second query is made only if an id is missing.
abbrev pub look_up : AvailabilityReader → List GoString → Result (GoString → Bool)
look_up reader [] = ok (λ s. false)
look_up reader (s ∷ ss) = reader.read_tracked (s ∷ ss)

-- The answer for one id.
unfoldable pub answer : AtpMap → (GoString → Bool) → GoString → SkuAvailability
answer atps tracked s = elim (atps s) [
  | some n ↦ record { sku_id = s; status = status_for n; atp = n }
  | none ↦
      if tracked s
      then record { sku_id = s; status = out_of_stock; atp = pos 0 }
      else record { sku_id = s; status = unknown; atp = pos 0 }
]

-- BatchGetAvailability
unfoldable pub batch_get_availability :
    AvailabilityReader → List GoString → Result (List SkuAvailability)
batch_get_availability reader skus = do
  atps ← reader.read_atp skus
  tracked ← look_up reader (absent_from atps skus)
  ok (map (answer atps tracked) skus)

-- The ids of the basket, if every line asks for something.
unfoldable pub checked_ids : List Line → Result (List GoString)
checked_ids [] = ok []
checked_ids (it ∷ items) =
    if leb_ℤ it.quantity (pos 0)
    then err non_positive_quantity
    else do rest ← checked_ids items; ok (it.sku_id ∷ rest)

unfoldable pub fulfills : AtpMap → List Line → Bool
fulfills m [] = true
fulfills m (it ∷ items) =
    if ltb_ℤ (or_zero (m it.sku_id)) it.quantity then false else fulfills m items

-- `for _, id := range activeIDs { if fulfills(…) { return … } }`
unfoldable pub any_fulfills : (ℤ → AtpMap) → List ℤ → List Line → Bool
any_fulfills by_warehouse [] items = false
any_fulfills by_warehouse (w ∷ ws) items =
    if fulfills (by_warehouse w) items then true else any_fulfills by_warehouse ws items

-- The map of the lowest active warehouse; the nil map if there is none.
unfoldable pub base_of : (ℤ → AtpMap) → List ℤ → AtpMap
base_of by_warehouse [] = λ s. none
base_of by_warehouse (w ∷ ws) = by_warehouse w

-- The loop that sorts the uncovered lines into shortages and unknown ids.
unfoldable pub sort_out : AtpMap → (GoString → Bool) → List Line → List Shortage × List GoString
sort_out m tracked [] = ([], [])
sort_out m tracked (it ∷ items) =
    let rest = sort_out m tracked items in
    let atp = or_zero (m it.sku_id) in
    if leb_ℤ it.quantity atp
    then rest
    else if has (m it.sku_id) || tracked it.sku_id
    then (record { sku_id = it.sku_id; requested = it.quantity; atp = atp } ∷ rest.0, rest.1)
    else (rest.0, it.sku_id ∷ rest.1)

abbrev pub unfulfilled : List Shortage × List GoString → CheckResult
unfulfilled (short, ids) = record { can_fulfill = false; shortages = short; unknown_sku_ids = ids }

abbrev pub fulfilled : CheckResult
fulfilled = record { can_fulfill = true; shortages = []; unknown_sku_ids = [] }

-- What CheckAvailability says when no warehouse has the basket.
unfoldable pub explain :
    AvailabilityReader → AtpMap → List Line → List GoString → Result CheckResult
explain reader base items ids = do
  tracked ← look_up reader (absent_from base ids)
  ok (unfulfilled (sort_out base tracked items))

-- CheckAvailability
unfoldable pub check_availability : AvailabilityReader → List Line → Result CheckResult
check_availability reader items = do
  ids ← checked_ids items
  (by_warehouse, active) ← reader.read_balances ids
  (if any_fulfills by_warehouse active items
      then ok fulfilled
      else explain reader (base_of by_warehouse active) items ids)
