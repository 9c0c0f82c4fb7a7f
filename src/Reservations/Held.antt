-- ===== src/Reservations/Held.antt =====
-- The stock that open reservations hold, for one SKU in one warehouse.
use inventory_service.Base.{
  ℕ, GoString, text_eq, ℤ, pos, ◌+ℤ◌, int_eq, ◌≡◌, ◌≢◌, refl, ◌∙◌, Bool, true, false, ◌&&◌,
  if◌then◌else◌, Option, none, some, List, [], ◌∷◌, map, keep, All, arith, int_laws,
}
use inventory_service.Domain.Types.{Allocation, Status, reserved}
use inventory_service.Store.Rows.{Header, ReservationLine}
use inventory_service.Store.Reservations.{
  find, set_status, place, in_lock_order, allocation_of, is_known,
}

abbrev pub is_reserved : Status → Bool
is_reserved reserved = true
is_reserved _ = false

abbrev pub is_open : Option Header → Bool
is_open none = false
is_open (some h) = is_reserved h.status

-- A line of a reservation that is in the table.
abbrev pub IsKnown : List Header → ReservationLine → Type 0
IsKnown hs l = find l.reservation_id hs ≢ none

module _ (s : GoString) (w : ℤ) where
  -- The sum of the quantities of the open reservations' lines.
  unfoldable pub held : List Header → List ReservationLine → ℤ
  held hs [] = pos 0
  held hs (l ∷ ls) =
      (if text_eq l.sku_id s && int_eq l.warehouse_id w && is_open (find l.reservation_id hs)
        then l.quantity
        else pos 0)
      +ℤ held hs ls

  -- The sum of the quantities of allocations.
  unfoldable pub sum_at : List Allocation → ℤ
  sum_at [] = pos 0
  sum_at (a ∷ rest) =
      (if text_eq a.sku_id s && int_eq a.warehouse_id w then a.quantity else pos 0) +ℤ sum_at rest

  sum_at-place : (a : Allocation) (bs : List Allocation) → sum_at (place a bs) ≡ sum_at (a ∷ bs)
  unfolding sum_at place
  sum_at-place a [] = refl
  sum_at-place a (b ∷ bs) = grind (int_laws, sum_at-place a bs)

  -- The order in which the lines are locked does not matter to their sum.
  pub sum_at-in_lock_order : (bs : List Allocation) → sum_at (in_lock_order bs) ≡ sum_at bs
  unfolding in_lock_order sum_at
  sum_at-in_lock_order [] = refl
  sum_at-in_lock_order (a ∷ bs) = sum_at-place a (in_lock_order bs) ∙ rw (sum_at-in_lock_order bs)

  -- A claim changes no older reservation's hold.
  pub held-new_header :
      (h : Header) (hs : List Header) (ls : List ReservationLine)
      → find h.id hs ≡ none
      → All (IsKnown hs) ls
      → held (h ∷ hs) ls ≡ held hs ls
  unfolding held find
  held-new_header h hs [] f k = refl
  held-new_header h hs (l ∷ ls) f k = ground (arith, held-new_header h hs ls f k.1)

-- The status of a reservation after one of them was set.
pub find-set_status :
    (i j : GoString) (st : Status) (now : ℕ) (hs : List Header)
    → is_open (find j (set_status i st now hs)) ≡ (
        if text_eq j i
        then (if is_known (find i hs) then is_reserved st else false)
        else is_open (find j hs))
unfolding find set_status
find-set_status i j st now [] = ground arith
find-set_status i j st now (h ∷ hs) = ground (arith, find-set_status i j st now hs)

pub IsKnown-set_status :
    (i : GoString) (st : Status) (now : ℕ) (hs : List Header) (l : ReservationLine)
    → IsKnown hs l
    → IsKnown (set_status i st now hs) l
unfolding find set_status
IsKnown-set_status i st now [] l k = k
IsKnown-set_status i st now (h ∷ hs) l k = ground (arith, IsKnown-set_status i st now hs l)

module _ (s : GoString) (w : ℤ) (id : GoString) (st : Status) (now : ℕ) (hs : List Header) where
  -- What an open reservation gives up when its status becomes another: the sum of its lines.
  pub held-set_status :
      (ls : List ReservationLine)
      → is_open (find id hs) ≡ true
      → is_reserved st ≡ false
      → held s w (set_status id st now hs) ls
          +ℤ sum_at s w (map allocation_of (keep (λ l. text_eq l.reservation_id id) ls))
        ≡ held s w hs ls
  unfolding held sum_at
  held-set_status [] o c = grind int_laws
  held-set_status (l ∷ ls) o c =
      grind (int_laws, held-set_status ls o c, find-set_status id l.reservation_id st now hs)
