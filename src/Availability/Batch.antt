-- ===== src/Availability/Batch.antt =====
-- BatchGetAvailability against the sums that it reports.
use inventory_service.Base.{
  GoString, text_eq, text_elem, IsInt64, ◌≡◌, refl, ap, ◌∙◌, Bool, true, false, ◌&&◌, if◌then◌else◌,
  Bool-cases, none, some, List, [], ◌∷◌, All, map, arith, inl, inr,
}
use inventory_service.Domain.Errors.{ok}
use inventory_service.Store.Database.{Db}
use inventory_service.Store.Atp.{AtpMap, or_zero, is_tracked, snapshot_rows}
use inventory_service.Availability.Queries.{
  steady, Total, group_rows, fill_totals, batch_atp, tracked_skus,
}
use inventory_service.Availability.Service.{
  repository, status_for, has, absent_from, look_up, answer, batch_get_availability,
}
use inventory_service.Availability.Groups.{
  total, truth, group_of, fill_totals-group_of, group_rows-IsGrouped, is_promised,
  total_of_unpromised, is_tracked_of_promised, group_of-group_rows, group_of-unrequested,
  cast_totals_of_IsInt64,
}

module _ (db : Db) (skus : List GoString)
    (fits : (s : GoString) → IsInt64 (total db.warehouses s db.balances)) where
  groups : List Total
  groups = group_rows (snapshot_rows db.warehouses skus db.balances)

  groups-IsInt64 : (s : GoString) → IsInt64 (or_zero (group_of s groups))
  unfolding groups
  groups-IsInt64 s = elim (Bool-cases (text_elem s skus)) [
    | inl e ↦ ground (arith, fits s, group_of-group_rows db.warehouses skus s db.balances e)
    | inr e ↦ ground (arith, group_of-unrequested db.warehouses skus s db.balances e)
  ]

  -- The map that BatchATP answers with.
  batch_atp-steady : batch_atp (steady db) skus ≡ ok (fill_totals (λ s. none) groups)
  unfolding batch_atp groups
  batch_atp-steady = rw (cast_totals_of_IsInt64 groups (group_rows-IsGrouped _) groups-IsInt64) refl

pub absent_from-elem :
    (m : AtpMap) (skus : List GoString) (s : GoString)
    → text_elem s skus ≡ true
    → has (m s) ≡ false
    → text_elem s (absent_from m skus) ≡ true
unfolding absent_from
absent_from-elem m [] s e h = e
absent_from-elem m (t ∷ ts) s e h = elim (Bool-cases (text_eq t s)) [
  | inl y ↦ ground arith
  | inr n ↦ ground (arith, absent_from-elem m ts s)
]

-- What the second lookup says of the ids that are missing.
pub look_up-missing :
    (db : Db) (missing : List GoString)
    → (tracked : GoString → Bool) × (look_up (repository (steady db)) missing ≡ ok tracked)
      × ((s : GoString) → text_elem s missing ≡ true → tracked s ≡ is_tracked db.balances s)
unfolding tracked_skus
look_up-missing db [] = ((λ s. false), refl, (λ s e. absurd (cc e)))
look_up-missing db (s ∷ ss) =
    ((λ t. text_elem t (s ∷ ss) && is_tracked db.balances t), refl, (λ t e. rw e refl))

answer-truth :
    (db : Db) (m : AtpMap) (tracked : GoString → Bool) (s : GoString)
    → m s ≡ (
        if is_promised db.warehouses s db.balances
        then some (total db.warehouses s db.balances)
        else none)
    → (has (m s) ≡ false → tracked s ≡ is_tracked db.balances s)
    → answer m tracked s ≡ truth db s
unfolding answer truth status_for
answer-truth db m tracked s h k = ground (
  arith,
  is_tracked_of_promised db.warehouses s db.balances,
  total_of_unpromised db.warehouses s db.balances,
)

map-answer :
    (db : Db) (m : AtpMap) (tracked : GoString → Bool) (skus todo : List GoString)
    → ((s : GoString) → text_elem s skus ≡ true → answer m tracked s ≡ truth db s)
    → All (λ s. text_elem s skus ≡ true) todo
    → map (answer m tracked) todo ≡ map (truth db) todo
map-answer db m tracked skus [] h e = refl
map-answer db m tracked skus (s ∷ todo) h e =
    rw (h s e.0, map-answer db m tracked skus todo h e.1) refl

text_elem-later :
    (t : GoString) (skus todo : List GoString)
    → All (λ s. text_elem s skus ≡ true) todo
    → All (λ s. text_elem s (t ∷ skus) ≡ true) todo
text_elem-later t skus [] h = tt
text_elem-later t skus (s ∷ todo) h = (ground arith, text_elem-later t skus todo h.1)

text_elem-all : (skus : List GoString) → All (λ s. text_elem s skus ≡ true) skus
text_elem-all [] = tt
text_elem-all (s ∷ skus) = (ground arith, text_elem-later s skus skus (text_elem-all skus))

group-steady :
    (db : Db) (skus : List GoString) (s : GoString)
    → text_elem s skus ≡ true
    → fill_totals (λ s. none) (group_rows (snapshot_rows db.warehouses skus db.balances)) s ≡ (
        if is_promised db.warehouses s db.balances
        then some (total db.warehouses s db.balances)
        else none)
group-steady db skus s e =
    fill_totals-group_of s (λ s. none) _ (group_rows-IsGrouped _)
    ∙ rw (group_of-group_rows db.warehouses skus s db.balances e)
        (elim (Bool-cases (is_promised db.warehouses s db.balances)) [
          | inl y ↦ rw y refl
          | inr n ↦ rw n refl
        ])

-- On one committed state whose sums fit a BIGINT, BatchGetAvailability answers, for every requested
-- SKU in the order of the request: UNKNOWN if no row of any warehouse tracks it, and else the sum of
-- its ATP over the active warehouses with that sum's status.
pub batch_get_availability_exact :
    (db : Db) (skus : List GoString)
    → ((s : GoString) → IsInt64 (total db.warehouses s db.balances))
    → batch_get_availability (repository (steady db)) skus ≡ ok (map (truth db) skus)
unfolding batch_get_availability groups
batch_get_availability_exact db skus fits =
    let m = fill_totals (λ s. none) (groups db skus fits) in
    let (tracked, l, says) = look_up-missing db (absent_from m skus) in
    rw (batch_atp-steady db skus fits, l)
      (ap ok (
        map-answer db m tracked skus skus
          (λ s e.
            answer-truth db m tracked s (group-steady db skus s e)
              (λ no. says s (absent_from-elem m skus s e no)))
          (text_elem-all skus)))
