-- ===== src/Availability/Groups.antt =====
-- The grouped sums of BatchATP.
use inventory_service.Base.{
  GoString, text_eq, text_elem, ℤ, pos, ◌+ℤ◌, IsInt64, int_laws, ◌≡◌, refl, Bool, true, false, ◌&&◌,
  ◌||◌, if◌then◌else◌, Option, none, some, List, [], ◌∷◌, arith, add-zero_ℤ,
}
use inventory_service.Domain.Errors.{ok}
use inventory_service.Store.Rows.{Balance, Warehouse}
use inventory_service.Store.Database.{Db}
use inventory_service.Store.Atp.{AtpMap, atp, or_zero, put, is_active, is_tracked, snapshot_rows}
use inventory_service.Availability.Queries.{
  Total, add_to_group, group_rows, cast_totals, fill_totals,
}
use inventory_service.Availability.Service.{SkuAvailability, status_for, unknown}

-- The sum of the ATP of a SKU's rows in active warehouses.
unfoldable pub total : List Warehouse → GoString → List Balance → ℤ
total hs s [] = pos 0
total hs s (b ∷ bs) =
    (if text_eq b.sku_id s && is_active hs b.warehouse_id then atp b else pos 0) +ℤ total hs s bs

-- What there is to say of a SKU: UNKNOWN if no row tracks it, and else its sum and the sum's status.
unfoldable pub truth : Db → GoString → SkuAvailability
truth db s =
    let n = total db.warehouses s db.balances in
    if is_tracked db.balances s
    then record { sku_id = s; status = status_for n; atp = n }
    else record { sku_id = s; status = unknown; atp = pos 0 }

-- The first group of a SKU.
abbrev pub group_of : GoString → List Total → Option ℤ
group_of s [] = none
group_of s (t ∷ ts) = if text_eq t.sku_id s then some t.sum else group_of s ts

abbrev pub IsGrouped : List Total → Type 0
IsGrouped [] = Unit
IsGrouped (t ∷ ts) = (group_of t.sku_id ts ≡ none) × IsGrouped ts

abbrev pub or_old : Option ℤ → Option ℤ → Option ℤ
or_old none old = old
or_old (some n) old = some n

pub fill_totals-group_of :
    (s : GoString) (m : AtpMap) (ts : List Total)
    → IsGrouped ts
    → fill_totals m ts s ≡ or_old (group_of s ts) (m s)
unfolding fill_totals put
fill_totals-group_of s m [] h = refl
fill_totals-group_of s m (t ∷ ts) h =
    ground (arith, fill_totals-group_of s (put t.sku_id t.sum m) ts h.1)

pub group_of-add_to_group :
    (t s : GoString) (n : ℤ) (ts : List Total)
    → group_of t (add_to_group s n ts)
      ≡ (if text_eq s t then some (n +ℤ or_zero (group_of s ts)) else group_of t ts)
unfolding add_to_group
group_of-add_to_group t s n [] = grind (arith, add-zero_ℤ n)
group_of-add_to_group t s n (x ∷ ts) = ground (arith, group_of-add_to_group t s n ts)

pub add_to_group-IsGrouped :
    (s : GoString) (n : ℤ) (ts : List Total) → IsGrouped ts → IsGrouped (add_to_group s n ts)
unfolding add_to_group
add_to_group-IsGrouped s n [] h = (refl, tt)
add_to_group-IsGrouped s n (x ∷ ts) h =
    ground (arith, add_to_group-IsGrouped s n ts h.1, group_of-add_to_group x.sku_id s n ts)

pub group_rows-IsGrouped : (bs : List Balance) → IsGrouped (group_rows bs)
unfolding group_rows
group_rows-IsGrouped [] = tt
group_rows-IsGrouped (b ∷ bs) =
    add_to_group-IsGrouped b.sku_id (atp b) (group_rows bs) (group_rows-IsGrouped bs)

-- A row of the SKU stands in an active warehouse.
abbrev pub is_promised : List Warehouse → GoString → List Balance → Bool
is_promised hs s [] = false
is_promised hs s (b ∷ bs) =
    (text_eq b.sku_id s && is_active hs b.warehouse_id) || is_promised hs s bs

pub total_of_unpromised :
    (hs : List Warehouse) (s : GoString) (bs : List Balance)
    → is_promised hs s bs ≡ false
    → total hs s bs ≡ pos 0
unfolding total
total_of_unpromised hs s [] h = refl
total_of_unpromised hs s (b ∷ bs) h = grind (int_laws, total_of_unpromised hs s bs)

pub is_tracked_of_promised :
    (hs : List Warehouse) (s : GoString) (bs : List Balance)
    → is_promised hs s bs ≡ true
    → is_tracked bs s ≡ true
unfolding is_tracked
is_tracked_of_promised hs s [] h = h
is_tracked_of_promised hs s (b ∷ bs) h = ground (arith, is_tracked_of_promised hs s bs)

-- A requested SKU's group is its sum, if there is a group.
pub group_of-group_rows :
    (hs : List Warehouse) (skus : List GoString) (s : GoString) (bs : List Balance)
    → text_elem s skus ≡ true
    → group_of s (group_rows (snapshot_rows hs skus bs))
      ≡ (if is_promised hs s bs then some (total hs s bs) else none)
unfolding group_rows snapshot_rows total
group_of-group_rows hs skus s [] e = refl
group_of-group_rows hs skus s (b ∷ bs) e = grind (
  int_laws,
  group_of-group_rows hs skus s bs e,
  total_of_unpromised hs s bs,
  group_of-add_to_group s b.sku_id (atp b) (group_rows (snapshot_rows hs skus bs)),
)

pub group_of-unrequested :
    (hs : List Warehouse) (skus : List GoString) (s : GoString) (bs : List Balance)
    → text_elem s skus ≡ false
    → group_of s (group_rows (snapshot_rows hs skus bs)) ≡ none
unfolding group_rows snapshot_rows
group_of-unrequested hs skus s [] e = refl
group_of-unrequested hs skus s (b ∷ bs) e = ground (
  arith,
  group_of-unrequested hs skus s bs e,
  group_of-add_to_group s b.sku_id (atp b) (group_rows (snapshot_rows hs skus bs)),
)

-- Sums that fit pass the cast as they are.
pub cast_totals_of_IsInt64 :
    (ts : List Total)
    → IsGrouped ts
    → ((s : GoString) → IsInt64 (or_zero (group_of s ts)))
    → cast_totals ts ≡ ok ts
unfolding cast_totals
cast_totals_of_IsInt64 [] g h = refl
cast_totals_of_IsInt64 (t ∷ ts) g h =
    let rest = cast_totals_of_IsInt64 ts g.1 (λ s. ground (arith, h s, g.0)) in
    ground (arith, rest, h t.sku_id)
