-- ===== src/Admin/Pages.antt =====
-- The pages of the lists: walked in turn, they give every matching row once, in one fixed order.
use inventory_service.Base.{
  ℕ, zero, suc, ◌+◌, ◌*◌, GoString, text_eq, text_ltb, ℤ, pos, ltb_ℤ, leb_ℤ, int_eq, ltb, ◌≡◌, refl,
  ap, Bool, true, false, not, ◌&&◌, ◌||◌, if◌then◌else◌, keep, take, drop, take-add, IsOrder,
  lexicographic-IsOrder, text_ltb-IsOrder, ltb_ℤ-IsOrder, ltb-IsOrder, pull-IsOrder, flip-IsOrder,
  List, [], ◌∷◌, ◌++◌, map, arith,
}
use inventory_service.Domain.Errors.{Result, ok, ◌>>=◌}
use inventory_service.Store.Rows.{Balance, Movement, Header}
use inventory_service.Store.Database.{Db}
use inventory_service.Admin.Views.{BalanceFilter, MovementFilter}
use inventory_service.Admin.Reads.{
  ListReads, where_clause, sku_condition, warehouse_condition, is_low, balance_conditions,
  movement_conditions, status_conditions, status_text, balance_before, header_before,
}

-- Both statements see the same state.
abbrev pub still : Db → ListReads
still db = record { counted = ok db; listed = ok db }

-- What an operator sees who turns the first `n` pages of a list.
unfoldable pub read_pages : {V : Type 0} → (ℤ → ℤ → Result (List V × ℕ)) → ℕ → ℕ → Result (List V)
read_pages list size zero = ok []
read_pages list size (suc n) = do
  rest ← read_pages list size n
  next ← list (pos size) (pos (n * size))
  ok (rest ++ next.0)

map-append : {A B : Type 0} (f : A → B) (xs ys : List A) → map f (xs ++ ys) ≡ map f xs ++ map f ys
map-append f [] ys = refl
map-append f (x ∷ xs) ys = ap (◌∷◌ (f x)) (map-append f xs ys)

-- A list whose every page is a slice of the same rows.
pub read_pages_slices :
    {A V : Type 0} (view : A → V) (rows : List A) (total : ℕ) (list : ℤ → ℤ → Result (List V × ℕ))
    → ((limit offset : ℕ)
        → list (pos limit) (pos offset) ≡ ok (map view (take limit (drop offset rows)), total))
    → (size n : ℕ) → read_pages list size n ≡ ok (map view (take (n * size) rows))
unfolding read_pages
read_pages_slices view rows total list slices size zero = let e : 0 * size ≡ 0 = omega arith in rw e
read_pages_slices view rows total list slices size (suc n) =
    let e : suc n * size ≡ n * size + size = grind arith in
    rw (
      read_pages_slices view rows total list slices size n,
      slices size (n * size),
      e,
      take-add (n * size) size rows,
      map-append view (take (n * size) rows) (take size (drop (n * size) rows)),
    )

where-append :
    {A : Type 0} (cs ds : List (A → Bool)) (row : A)
    → where_clause (cs ++ ds) row ≡ (where_clause cs row && where_clause ds row)
unfolding where_clause
where-append [] ds row = refl
where-append (c ∷ cs) ds row = ground (arith, where-append cs ds row)

-- What a filter asks of a text and of a warehouse.
abbrev pub is_asked : GoString → GoString → Bool
is_asked asked s = text_eq asked [] || text_eq s asked

abbrev pub is_asked_warehouse : ℤ → ℤ → Bool
is_asked_warehouse asked w = leb_ℤ asked (pos 0) || int_eq w asked

sku_condition_lem :
    {A : Type 0} (column : A → GoString) (s : GoString) (row : A)
    → where_clause (sku_condition column s) row ≡ is_asked s (column row)
unfolding where_clause sku_condition
sku_condition_lem column [] row = ground arith
sku_condition_lem column (c ∷ cs) row = ground arith

warehouse_condition_lem :
    {A : Type 0} (column : A → ℤ) (w : ℤ) (row : A)
    → where_clause (warehouse_condition column w) row ≡ is_asked_warehouse w (column row)
unfolding where_clause warehouse_condition
warehouse_condition_lem column w row = ground arith

abbrev pub selects_balance : BalanceFilter → Balance → Bool
selects_balance f b =
    is_asked f.sku_id b.sku_id
    && is_asked_warehouse f.warehouse_id b.warehouse_id
    && (not f.low_stock_only || is_low b)

abbrev pub selects_movement : MovementFilter → Movement → Bool
selects_movement f m =
    is_asked f.sku_id m.sku_id && is_asked_warehouse f.warehouse_id m.warehouse_id

low_condition_lem :
    (low : Bool) (b : Balance)
    → where_clause (if low then is_low ∷ [] else []) b ≡ (not low || is_low b)
unfolding where_clause
low_condition_lem true b = ground arith
low_condition_lem false b = refl

pub balance_conditions_lem :
    (f : BalanceFilter) (b : Balance) → where_clause (balance_conditions f) b ≡ selects_balance f b
unfolding balance_conditions
balance_conditions_lem f b = rw (
  where-append
      (sku_condition (λ (b : Balance). b.sku_id) f.sku_id
        ++ warehouse_condition (λ (b : Balance). b.warehouse_id) f.warehouse_id)
      (if f.low_stock_only then is_low ∷ [] else []) b,
  where-append (sku_condition (λ (b : Balance). b.sku_id) f.sku_id)
      (warehouse_condition (λ (b : Balance). b.warehouse_id) f.warehouse_id) b,
  sku_condition_lem (λ (b : Balance). b.sku_id) f.sku_id b,
  warehouse_condition_lem (λ (b : Balance). b.warehouse_id) f.warehouse_id b,
  low_condition_lem f.low_stock_only b,
)

pub movement_conditions_lem :
    (f : MovementFilter) (m : Movement)
    → where_clause (movement_conditions f) m ≡ selects_movement f m
unfolding movement_conditions
movement_conditions_lem f m = rw (
  where-append (sku_condition (λ (m : Movement). m.sku_id) f.sku_id)
      (warehouse_condition (λ (m : Movement). m.warehouse_id) f.warehouse_id) m,
  sku_condition_lem (λ (m : Movement). m.sku_id) f.sku_id m,
  warehouse_condition_lem (λ (m : Movement). m.warehouse_id) f.warehouse_id m,
)

pub status_conditions_lem :
    (s : GoString) (h : Header)
    → where_clause (status_conditions s) h ≡ is_asked s (status_text h.status)
unfolding status_conditions
status_conditions_lem s h = sku_condition_lem (λ (h : Header). status_text h.status) s h

pub keep-ext :
    {A : Type 0} (p q : A → Bool) → ((x : A) → p x ≡ q x) → (xs : List A) → keep p xs ≡ keep q xs
keep-ext p q h [] = refl
keep-ext p q h (x ∷ xs) = rw (h x, keep-ext p q h xs)

pub balance_before-IsOrder : IsOrder balance_before
balance_before-IsOrder =
    lexicographic-IsOrder (λ a b. text_ltb a.sku_id b.sku_id)
      (λ a b. ltb_ℤ a.warehouse_id b.warehouse_id)
      (pull-IsOrder (λ b. b.sku_id) text_ltb text_ltb-IsOrder)
      (pull-IsOrder (λ b. b.warehouse_id) ltb_ℤ ltb_ℤ-IsOrder)

pub header_before-IsOrder : IsOrder header_before
header_before-IsOrder =
    lexicographic-IsOrder (λ a b. ltb b.created_at a.created_at) (λ a b. text_ltb b.id a.id)
      (flip-IsOrder (λ a b. ltb a.created_at b.created_at)
        (pull-IsOrder (λ h. h.created_at) ltb ltb-IsOrder))
      (flip-IsOrder (λ a b. text_ltb a.id b.id)
        (pull-IsOrder (λ h. h.id) text_ltb text_ltb-IsOrder))
