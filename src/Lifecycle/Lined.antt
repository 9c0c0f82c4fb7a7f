-- ===== src/Lifecycle/Lined.antt =====
-- In a consistent and intact store, the lines of a RESERVED reservation stand on balances that cover
-- them, and no two are of the same SKU.
use inventory_service.Base.{
  GoString, text_eq, ℤ, pos, ◌≤ℤ◌, int_laws, ◌≡◌, sym, subst, true, false, Bool-cases, some, List,
  [], ◌∷◌, map, keep, All, arith, inl, inr,
}
use inventory_service.Domain.Types.{Allocation}
use inventory_service.Store.Rows.{Balance, Header, ReservationLine}
use inventory_service.Store.Balances
use inventory_service.Store.Reservations.{
  find, has_line, place, in_lock_order, goes_before, allocation_of,
}
use inventory_service.Store.Database.{Db}
use inventory_service.Reservations.Reserve.{load_reservation_lines}
use inventory_service.Reservations.Held.{held, is_open}
use inventory_service.Consistency.Schema.{IsUniqueLine}
use inventory_service.Lifecycle.Ready.{IsApart}

-- What holds of every row holds of the one that a key finds.
pub find-All :
    (P : Balance → Type 0) (s : GoString) (w : ℤ) {b : Balance} (bs : List Balance)
    → All P bs
    → Balances.find s w bs ≡ some b
    → P b
unfolding Balances.find
find-All P s w [] h e = absurd (cc e)
find-All P s w {b} (c ∷ bs) h e = elim (Bool-cases (Balances.is_at s w c)) [
  | inl t ↦ let same : c ≡ b = cc (rw t at e) in subst P same h.0
  | inr t ↦ find-All P s w {b = b} bs h.1 (rw t at e)
]

All-place :
    (P : Allocation → Type 0) (a : Allocation) (bs : List Allocation)
    → P a
    → All P bs
    → All P (place a bs)
unfolding place
All-place P a [] p h = (p, tt)
All-place P a (b ∷ bs) p h = elim (Bool-cases (goes_before a b)) [
  | inl t ↦ rw t (p, h)
  | inr t ↦ rw t (h.0, All-place P a bs p h.1)
]

pub All-in_lock_order :
    (P : Allocation → Type 0) (bs : List Allocation) → All P bs → All P (in_lock_order bs)
unfolding in_lock_order
All-in_lock_order P [] h = tt
All-in_lock_order P (a ∷ bs) h = All-place P a (in_lock_order bs) h.0 (All-in_lock_order P bs h.1)

place-IsApart : (a : Allocation) (bs : List Allocation) → IsApart (a ∷ bs) → IsApart (place a bs)
unfolding place
place-IsApart a [] h = h
place-IsApart a (b ∷ bs) h = elim (Bool-cases (goes_before a b)) [
  | inl t ↦ rw t h
  | inr t ↦ rw t (
    All-place (λ c. ¬ (c.sku_id ≡ b.sku_id)) a bs (λ e. h.0.0 (sym e)) h.1.0,
    place-IsApart a bs (h.0.1, h.1.1),
  )
]

in_lock_order-IsApart : (bs : List Allocation) → IsApart bs → IsApart (in_lock_order bs)
unfolding in_lock_order
in_lock_order-IsApart [] h = tt
in_lock_order-IsApart (a ∷ bs) h =
    place-IsApart a (in_lock_order bs)
      (All-in_lock_order (λ b. ¬ (b.sku_id ≡ a.sku_id)) bs h.0, in_lock_order-IsApart bs h.1)

module _ (id : GoString) where
  abbrev pub lines_of : List ReservationLine → List Allocation
  lines_of ls = map allocation_of (keep (λ l. text_eq l.reservation_id id) ls)

  pub All-lines_of :
      (P : Allocation → Type 0) (ls : List ReservationLine)
      → All (λ (l : ReservationLine). text_eq l.reservation_id id ≡ true → P (allocation_of l)) ls
      → All P (lines_of ls)
  All-lines_of P [] h = tt
  All-lines_of P (l ∷ ls) h = elim (Bool-cases (text_eq l.reservation_id id)) [
    | inl t ↦ rw t (h.0 t, All-lines_of P ls h.1)
    | inr t ↦ rw t (All-lines_of P ls h.1)
  ]

  unlisted-lines_of :
      (s : GoString) (ls : List ReservationLine)
      → has_line id s ls ≡ false
      → All (λ b. ¬ (b.sku_id ≡ s)) (lines_of ls)
  unfolding has_line
  unlisted-lines_of s [] n = tt
  unlisted-lines_of s (l ∷ ls) n = elim (Bool-cases (text_eq l.reservation_id id)) [
    | inl t ↦ rw t ((λ e. ground arith), unlisted-lines_of s ls (ground arith))
    | inr t ↦ rw t (unlisted-lines_of s ls (ground arith))
  ]

  lines_of-IsApart : (ls : List ReservationLine) → IsUniqueLine ls → IsApart (lines_of ls)
  lines_of-IsApart [] u = tt
  lines_of-IsApart (l ∷ ls) u = elim (Bool-cases (text_eq l.reservation_id id)) [
    | inl t ↦
        let same : l.reservation_id ≡ id = ground arith in
        rw t (unlisted-lines_of l.sku_id ls (rw (← same) u.0), lines_of-IsApart ls u.1)
    | inr t ↦ rw t (lines_of-IsApart ls u.1)
  ]

  pub load-IsApart : (db : Db) → IsUniqueLine db.lines → IsApart (load_reservation_lines db id)
  unfolding load_reservation_lines
  load-IsApart db u = in_lock_order-IsApart (lines_of db.lines) (lines_of-IsApart db.lines u)

-- The quantity of a line of an open reservation is part of what is held.
abbrev pub IsPositive : ReservationLine → Type 0
IsPositive l = ¬ (l.quantity ≤ℤ pos 0)

held-natural :
    (s : GoString) (w : ℤ) (hs : List Header) (ls : List ReservationLine)
    → All IsPositive ls
    → pos 0 ≤ℤ held s w hs ls
unfolding held
held-natural s w hs [] h = omega arith
held-natural s w hs (l ∷ ls) h = grind (int_laws, held-natural s w hs ls h.1)

pub held-grows :
    (s : GoString) (w : ℤ) (hs : List Header) (l : ReservationLine) (ls : List ReservationLine)
    → IsPositive l
    → held s w hs ls ≤ℤ held s w hs (l ∷ ls)
unfolding held
held-grows s w hs l ls h = grind int_laws

pub held-head :
    (hs : List Header) (l : ReservationLine) (ls : List ReservationLine)
    → All IsPositive ls
    → is_open (find l.reservation_id hs) ≡ true
    → l.quantity ≤ℤ held l.sku_id l.warehouse_id hs (l ∷ ls)
unfolding held
held-head hs l ls h o = grind (int_laws, held-natural l.sku_id l.warehouse_id hs ls h)
