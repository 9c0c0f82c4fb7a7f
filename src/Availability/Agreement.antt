-- ===== src/Availability/Agreement.antt =====
-- CheckAvailability against what can be fulfilled, and against what Reserve would do.
use inventory_service.Base.{
  GoString, text_elem, ℤ, ◌≡◌, refl, sym, ◌∙◌, Bool, true, false, ◌&&◌, Bool-cases, none, List, [],
  ◌∷◌, All, inl, inr, ◌↔◌,
}
use inventory_service.Domain.Types.{Line, Allocation}
use inventory_service.Domain.Errors.{ok}
use inventory_service.Store.Balances.{find, IsKeyed}
use inventory_service.Store.Database.{Db, Env}
use inventory_service.Store.Atp.{
  AtpMap, active_ids, is_active, is_tracked, fill, fill_by_warehouse, snapshot_rows, sku_ids_of,
}
use inventory_service.Reservations.AtpMaps.{entry, fill-snapshot_rows, fill-locked_rows}
use inventory_service.Reservations.Allocate.{
  allocate_reservation, allocate_in, lock_warehouse_atp, locked_rows, active_atp_snapshot,
  allocations_in,
}
use inventory_service.Reservations.Gate.{IsCovered}
use inventory_service.Availability.Queries.{steady, active_warehouse_balances, tracked_skus}
use inventory_service.Availability.Service.{
  repository, any_fulfills, check_availability, explain, CheckResult, look_up, absent_from, base_of,
  fulfilled, unfulfilled, sort_out,
}
use inventory_service.Availability.Check.{IsPositive}
use inventory_service.Availability.Covers.{
  Fulfillable, int_elem-active_ids, any_fulfills_sound, any_fulfills_complete, fulfills_sound,
  fulfills_complete, shortages_against_complete, sku_ids_of-elem, checked_ids_of_positive,
  choose-eq-some, choose-eq-none,
}

-- The map that one state gives for a basket.
abbrev map_of : Db → List Line → ℤ → AtpMap
map_of db items =
    fill_by_warehouse (λ w s. none) (snapshot_rows db.warehouses (sku_ids_of items) db.balances)

module _ (db : Db) (items : List Line) (keyed : IsKeyed db.balances) where
  map_of-entry :
      (w : ℤ)
      → is_active db.warehouses w ≡ true
      → (s : GoString) → text_elem s (sku_ids_of items) ≡ true
      → map_of db items w s ≡ entry (find s w db.balances) none
  map_of-entry w a s e =
      fill-snapshot_rows db.warehouses (sku_ids_of items) w s (λ w s. none) db.balances keyed
      ∙ rw (a, e) refl

  any_fulfills-Fulfillable :
      any_fulfills (map_of db items) (active_ids db.warehouses) items ≡ true → Fulfillable db items
  any_fulfills-Fulfillable h =
      let (w, e, f) = any_fulfills_sound (map_of db items) (active_ids db.warehouses) items h in
      let a = sym (int_elem-active_ids w db.warehouses) ∙ e in
      (
        w,
        a,
        fulfills_sound w (sku_ids_of items) db.balances (map_of db items w) (map_of-entry w a) items
            (sku_ids_of-elem items) f,
      )

  Fulfillable-any_fulfills :
      Fulfillable db items → any_fulfills (map_of db items) (active_ids db.warehouses) items ≡ true
  Fulfillable-any_fulfills (w, a, c) =
      any_fulfills_complete (map_of db items) (active_ids db.warehouses) items w
        (int_elem-active_ids w db.warehouses ∙ a)
        (fulfills_complete w (sku_ids_of items) db.balances (map_of db items w) (map_of-entry w a)
          items (sku_ids_of-elem items) c)

  -- With the warehouse's rows locked, the basket is still covered.
  allocate_in-covered :
      (env : Env) (w : ℤ)
      → env.lock ≡ none
      → All (IsCovered w db.balances) items
      → allocate_in env db items w ≡ ok (allocations_in w items)
  unfolding allocate_in lock_warehouse_atp
  allocate_in-covered env w l c =
      let m = fill (λ s. none) (locked_rows w (sku_ids_of items) db.balances) in
      let holds : (s : GoString)
          → text_elem s (sku_ids_of items) ≡ true
          → m s ≡ entry (find s w db.balances) none =
        λ s e. fill-locked_rows w (sku_ids_of items) s (λ s. none) db.balances keyed ∙ rw e refl in
      rw
        (
          l,
          shortages_against_complete w (sku_ids_of items) db.balances m holds items
              (sku_ids_of-elem items) c,
        )
        refl

look_up-steady :
    (db : Db) (skus : List GoString)
    → (tracked : GoString → Bool) × (look_up (repository (steady db)) skus ≡ ok tracked)
unfolding tracked_skus
look_up-steady db [] = ((λ s. false), refl)
look_up-steady db (s ∷ ss) = ((λ t. text_elem t (s ∷ ss) && is_tracked db.balances t), refl)

-- On one committed state with its keys, for a basket whose quantities are positive, CheckAvailability
-- answers, and says that the basket can be fulfilled exactly when some active warehouse's ATP covers
-- every line.
pub check_availability_exact :
    (db : Db) (items : List Line)
    → IsKeyed db.balances
    → All IsPositive items
    → (r : CheckResult) × (check_availability (repository (steady db)) items ≡ ok r)
      × ((r.can_fulfill ≡ true) ↔ Fulfillable db items)
unfolding check_availability explain active_warehouse_balances
check_availability_exact db items keyed positive =
    let ids = checked_ids_of_positive items positive in
    elim (Bool-cases (any_fulfills (map_of db items) (active_ids db.warehouses) items)) [
      | inl y ↦ (
        fulfilled,
        rw (ids, y) refl,
        ((λ _. any_fulfills-Fulfillable db items keyed y), (λ _. refl)),
      )
      | inr n ↦
          let base = base_of (map_of db items) (active_ids db.warehouses) in
          let (tracked, l) = look_up-steady db (absent_from base (sku_ids_of items)) in
          (
            unfulfilled (sort_out base tracked items),
            rw (ids, n, l) refl,
            (
              (λ no. absurd (cc no)),
              (λ f. absurd (cc (n, Fulfillable-any_fulfills db items keyed f))),
            ),
          )
    ]

-- In a store with at most one balance to a SKU and warehouse, if the unlocked scan sees the
-- committed state and the locks are granted, Reserve finds an allocation for a basket exactly when
-- some active warehouse's ATP covers every line.
pub allocate_reservation_exact :
    (env : Env) (db : Db) (items : List Line)
    → IsKeyed db.balances
    → env.snapshot ≡ db
    → env.lock ≡ none
    → ((allocations : List Allocation) × (allocate_reservation env db items ≡ ok allocations))
      ↔ Fulfillable db items
unfolding allocate_reservation active_atp_snapshot
allocate_reservation_exact env db items keyed same free =
    elim (Bool-cases (any_fulfills (map_of db items) (active_ids db.warehouses) items)) [
      | inl y ↦ (
        (λ _. any_fulfills-Fulfillable db items keyed y),
        (λ _.
            let (w, c, e, f) =
              choose-eq-some (map_of db items) (active_ids db.warehouses) items y in
            let a = sym (int_elem-active_ids w db.warehouses) ∙ e in
            let covered =
              fulfills_sound w (sku_ids_of items) db.balances (map_of db items w)
                (map_of-entry db items keyed w a) items (sku_ids_of-elem items) f in
            (
              allocations_in w items,
              rw (same, allocate_reservation, c)
                  (allocate_in-covered db items keyed env w free covered),
            )),
      )
      | inr n ↦ (
        (λ (allocations, p). absurd (
            cc (
              rw
                (
                  same,
                  allocate_reservation,
                  choose-eq-none (map_of db items) (active_ids db.warehouses) items n,
                )
                at p))),
        (λ f. absurd (cc (n, Fulfillable-any_fulfills db items keyed f))),
      )
    ]
