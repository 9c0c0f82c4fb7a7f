-- ===== src/Availability/Covers.antt =====
-- The loops over warehouses, and the rows that the maps hold.
use inventory_service.Base.{
  GoString, text_elem, ℤ, int_eq, ◌≡◌, refl, Bool, true, false, ◌||◌, Bool-cases, none, some, List,
  [], ◌∷◌, All, arith, inl, inr,
}
use inventory_service.Domain.Types.{Line}
use inventory_service.Domain.Errors.{ok}
use inventory_service.Store.Rows.{Balance, Warehouse}
use inventory_service.Store.Balances.{find}
use inventory_service.Store.Database.{Db}
use inventory_service.Store.Atp.{AtpMap, active_ids, place_id, is_active, sku_ids_of}
use inventory_service.Reservations.AtpMaps.{entry}
use inventory_service.Reservations.Allocate.{fulfills_lines, shortages_against, choose}
use inventory_service.Reservations.Gate.{IsCovered}
use inventory_service.Availability.Service.{checked_ids, fulfills, any_fulfills}
use inventory_service.Availability.Check.{IsPositive}

-- An active warehouse covers every line.
abbrev pub Fulfillable : Db → List Line → Type 0
Fulfillable db items =
    (w : ℤ) × (is_active db.warehouses w ≡ true) × All (IsCovered w db.balances) items

abbrev pub int_elem : ℤ → List ℤ → Bool
int_elem w [] = false
int_elem w (v ∷ vs) = int_eq v w || int_elem w vs

pub int_elem-place_id :
    (w i : ℤ) (js : List ℤ) → int_elem w (place_id i js) ≡ (int_eq i w || int_elem w js)
unfolding place_id
int_elem-place_id w i [] = refl
int_elem-place_id w i (j ∷ js) = ground (arith, int_elem-place_id w i js)

pub int_elem-active_ids :
    (w : ℤ) (hs : List Warehouse) → int_elem w (active_ids hs) ≡ is_active hs w
unfolding active_ids is_active
int_elem-active_ids w [] = refl
int_elem-active_ids w (h ∷ hs) =
    ground (arith, int_elem-active_ids w hs, int_elem-place_id w h.id (active_ids hs))

pub any_fulfills_sound :
    (by_warehouse : ℤ → AtpMap) (active : List ℤ) (items : List Line)
    → any_fulfills by_warehouse active items ≡ true
    → (w : ℤ) × (int_elem w active ≡ true) × (fulfills (by_warehouse w) items ≡ true)
unfolding any_fulfills
any_fulfills_sound by_warehouse [] items h = absurd (cc h)
any_fulfills_sound by_warehouse (v ∷ vs) items h =
    elim (Bool-cases (fulfills (by_warehouse v) items)) [
      | inl y ↦ (v, ground arith, y)
      | inr n ↦
          let (w, e, f) = any_fulfills_sound by_warehouse vs items (rw n at h) in
          (w, ground arith, f)
    ]

pub any_fulfills_complete :
    (by_warehouse : ℤ → AtpMap) (active : List ℤ) (items : List Line) (w : ℤ)
    → int_elem w active ≡ true
    → fulfills (by_warehouse w) items ≡ true
    → any_fulfills by_warehouse active items ≡ true
unfolding any_fulfills
any_fulfills_complete by_warehouse [] items w e f = e
any_fulfills_complete by_warehouse (v ∷ vs) items w e f =
    ground (arith, any_fulfills_complete by_warehouse vs items w)

-- The maps of the snapshot and of the locking read, against the rows.
module _ (w : ℤ) (skus : List GoString) (bs : List Balance) (m : AtpMap)
    (holds : (s : GoString) → text_elem s skus ≡ true → m s ≡ entry (find s w bs) none) where
  pub fulfills_sound :
      (items : List Line)
      → All (λ it. text_elem it.sku_id skus ≡ true) items
      → fulfills m items ≡ true
      → All (IsCovered w bs) items
  unfolding fulfills
  fulfills_sound [] k f = tt
  fulfills_sound (it ∷ items) k f = ground (arith, fulfills_sound items k.1, holds it.sku_id k.0)

  pub fulfills_complete :
      (items : List Line)
      → All (λ it. text_elem it.sku_id skus ≡ true) items
      → All (IsCovered w bs) items
      → fulfills m items ≡ true
  unfolding fulfills
  fulfills_complete [] k c = refl
  fulfills_complete (it ∷ items) k c =
      ground (arith, fulfills_complete items k.1 c.1, holds it.sku_id k.0)

  pub shortages_against_complete :
      (items : List Line)
      → All (λ it. text_elem it.sku_id skus ≡ true) items
      → All (IsCovered w bs) items
      → shortages_against m items ≡ []
  unfolding shortages_against
  shortages_against_complete [] k c = refl
  shortages_against_complete (it ∷ items) k c =
      ground (arith, shortages_against_complete items k.1 c.1, holds it.sku_id k.0)

pub text_elem-weaken :
    (t : GoString) (skus : List GoString) (items : List Line)
    → All (λ it. text_elem it.sku_id skus ≡ true) items
    → All (λ it. text_elem it.sku_id (t ∷ skus) ≡ true) items
text_elem-weaken t skus [] h = tt
text_elem-weaken t skus (it ∷ items) h = (ground arith, text_elem-weaken t skus items h.1)

pub sku_ids_of-elem :
    (items : List Line) → All (λ it. text_elem it.sku_id (sku_ids_of items) ≡ true) items
unfolding sku_ids_of
sku_ids_of-elem [] = tt
sku_ids_of-elem (it ∷ items) =
    (ground arith, text_elem-weaken it.sku_id (sku_ids_of items) items (sku_ids_of-elem items))

pub checked_ids_of_positive :
    (items : List Line) → All IsPositive items → checked_ids items ≡ ok (sku_ids_of items)
unfolding checked_ids sku_ids_of
checked_ids_of_positive [] h = refl
checked_ids_of_positive (it ∷ items) h = ground (arith, checked_ids_of_positive items h.1)

pub fulfills_lines-eq : (m : AtpMap) (items : List Line) → fulfills_lines m items ≡ fulfills m items
unfolding fulfills_lines fulfills
fulfills_lines-eq m [] = refl
fulfills_lines-eq m (it ∷ items) = ground (arith, fulfills_lines-eq m items)

-- The first warehouse, if any, that has the basket.
pub choose-eq-some :
    (by_warehouse : ℤ → AtpMap) (active : List ℤ) (items : List Line)
    → any_fulfills by_warehouse active items ≡ true
    → (w : ℤ) × (choose by_warehouse active items ≡ some w)
      × (int_elem w active ≡ true)
      × (fulfills (by_warehouse w) items ≡ true)
unfolding any_fulfills choose
choose-eq-some by_warehouse [] items h = absurd (cc h)
choose-eq-some by_warehouse (v ∷ vs) items h = elim (Bool-cases (fulfills (by_warehouse v) items)) [
  | inl y ↦ (v, ground (arith, fulfills_lines-eq (by_warehouse v) items), ground arith, y)
  | inr n ↦
      let (w, c, e, f) = choose-eq-some by_warehouse vs items (rw n at h) in
      (w, ground (arith, fulfills_lines-eq (by_warehouse v) items), ground arith, f)
]

pub choose-eq-none :
    (by_warehouse : ℤ → AtpMap) (active : List ℤ) (items : List Line)
    → any_fulfills by_warehouse active items ≡ false
    → choose by_warehouse active items ≡ none
unfolding any_fulfills choose
choose-eq-none by_warehouse [] items h = refl
choose-eq-none by_warehouse (v ∷ vs) items h =
    ground (arith, choose-eq-none by_warehouse vs items, fulfills_lines-eq (by_warehouse v) items)
