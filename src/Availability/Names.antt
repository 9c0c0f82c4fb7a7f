-- ===== src/Availability/Names.antt =====
-- Which SKUs CheckAvailability calls unknown.
use inventory_service.Base.{
  GoString, text_elem, ℤ, ◌≡◌, Bool, true, false, Option-cases, none, some, List, [], ◌∷◌, All,
  arith, inl, inr,
}
use inventory_service.Domain.Types.{Line, Shortage}
use inventory_service.Domain.Errors.{ok, Result-cases}
use inventory_service.Store.Rows.{Balance}
use inventory_service.Store.Balances.{find, IsKeyed}
use inventory_service.Store.Database.{Db}
use inventory_service.Store.Atp.{AtpMap, fill_by_warehouse, snapshot_rows, is_tracked, sku_ids_of}
use inventory_service.Reservations.AtpMaps.{fill-snapshot_rows}
use inventory_service.Availability.Queries.{steady, active_warehouse_balances}
use inventory_service.Availability.Service.{
  CheckResult, repository, base_of, sort_out, has, absent_from, check_availability, checked_ids,
  unfulfilled,
}
use inventory_service.Availability.Check.{check_cases, OfResult}
use inventory_service.Availability.Covers.{sku_ids_of-elem}
use inventory_service.Availability.Batch.{look_up-missing, absent_from-elem}

-- The names in an answer, against the table of balances.
pub record IsNamed (db : Db) (r : CheckResult) : Type 0 where
  pub unknown_untracked : All (λ s. is_tracked db.balances s ≡ false) r.unknown_sku_ids
  pub shortages_tracked : All (λ (x : Shortage). is_tracked db.balances x.sku_id ≡ true) r.shortages

is_tracked_of_found :
    (s : GoString) (w : ℤ) (bs : List Balance) {b : Balance}
    → find s w bs ≡ some b
    → is_tracked bs s ≡ true
unfolding find is_tracked
is_tracked_of_found s w [] h = absurd (cc h)
is_tracked_of_found s w (c ∷ bs) {b} h = ground (arith, is_tracked_of_found s w bs {b = b})

module _ (db : Db) (m : AtpMap) (tracked : GoString → Bool) (ids : List GoString)
    (present : (s : GoString) → has (m s) ≡ true → is_tracked db.balances s ≡ true)
    (absent : (s : GoString)
      → text_elem s ids ≡ true
      → has (m s) ≡ false
      → tracked s ≡ is_tracked db.balances s) where
  sort_out-IsNamed :
      (items : List Line)
      → All (λ it. text_elem it.sku_id ids ≡ true) items
      → IsNamed db (unfulfilled (sort_out m tracked items))
  unfolding sort_out
  sort_out-IsNamed [] k = record { unknown_untracked = tt; shortages_tracked = tt }
  sort_out-IsNamed (it ∷ items) k =
      let rest = sort_out-IsNamed items k.1 in
      record {
        unknown_untracked =
            ground (arith, rest.unknown_untracked, present it.sku_id, absent it.sku_id k.0);
        shortages_tracked =
            ground (arith, rest.shortages_tracked, present it.sku_id, absent it.sku_id k.0);
      }

checked_ids-eq-ok :
    (items : List Line) {ids : List GoString} → checked_ids items ≡ ok ids → ids ≡ sku_ids_of items
unfolding checked_ids sku_ids_of
checked_ids-eq-ok [] h = ground arith
checked_ids-eq-ok (it ∷ items) {ids} h = elim (Result-cases (checked_ids items)) [
  | inr (x, e) ↦ absurd (ground arith)
  | inl (rest, e) ↦ ground (arith, checked_ids-eq-ok items {ids = rest} e)
]

-- An entry of a snapshot's map has a row.
entry_tracked :
    (db : Db) (ids : List GoString) (active : List ℤ) (s : GoString)
    → IsKeyed db.balances
    → has (
        base_of
          (fill_by_warehouse (λ w s. none) (snapshot_rows db.warehouses ids db.balances))
          active
          s)
      ≡ true
    → is_tracked db.balances s ≡ true
unfolding base_of
entry_tracked db ids [] s keyed h = absurd (cc h)
entry_tracked db ids (w ∷ ws) s keyed h = elim (Option-cases (find s w db.balances)) [
  | inr (b, f) ↦ is_tracked_of_found s w db.balances {b = b} f
  | inl n ↦
      let stored = fill-snapshot_rows db.warehouses ids w s (λ w s. none) db.balances keyed in
      absurd (ground (arith, stored))
]

-- On one committed state with its keys, whatever CheckAvailability answers, the SKUs that it calls
-- unknown have no row in any warehouse, and those that it reports a shortage of have one.
pub check_availability-IsNamed :
    (db : Db) (items : List Line)
    → IsKeyed db.balances
    → OfResult (IsNamed db) (check_availability (repository (steady db)) items)
unfolding active_warehouse_balances
check_availability-IsNamed db items keyed =
    check_cases (OfResult (IsNamed db)) (repository (steady db)) items (λ e. tt)
      (λ ids by_warehouse active c b y. record { unknown_untracked = tt; shortages_tracked = tt })
      λ ids by_warehouse active tracked c b n l.
        let maps : fill_by_warehouse (λ w s. none) (snapshot_rows db.warehouses ids db.balances)
            ≡ by_warehouse =
          cc b in
        let base = base_of by_warehouse active in
        let (other, l', says) = look_up-missing db (absent_from base ids) in
        let same : other ≡ tracked = cc (l, l') in
        sort_out-IsNamed db base tracked ids
          (λ s h. entry_tracked db ids active s keyed (rw maps h))
          (λ s e h. rw (← same) (says s (absent_from-elem base ids s e h))) items
          (rw (checked_ids-eq-ok items {ids = ids} c) (sku_ids_of-elem items))
