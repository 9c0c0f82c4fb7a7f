-- ===== src/Admin/Complete.antt =====
-- What the lists of the back office leave out and repeat: nothing.
use mathlib.Core.List.{Perm}
use inventory_service.Base.{
  ℕ, ◌*◌, GoString, pos, ◌≡◌, length, keep, take, drop, sort, IsSorted, sort-perm, sort-IsSorted,
  length-sort, List, map, ℤ,
}
use inventory_service.Domain.Errors.{Result, ok}
use inventory_service.Store.Rows.{Balance, Header}
use inventory_service.Store.Database.{Db}
use inventory_service.Admin.Views.{BalanceFilter, MovementFilter}
use inventory_service.Admin.Reads.{
  where_clause, balance_conditions, movement_conditions, status_conditions, status_text, list_total,
  page, balance_before, header_before, balance_view, movement_view, reservation_view, list_balances,
  list_movements, list_reservations,
}
use inventory_service.Admin.Pages.{
  still, read_pages, read_pages_slices, selects_balance, selects_movement, balance_conditions_lem,
  movement_conditions_lem, status_conditions_lem, is_asked, keep-ext, balance_before-IsOrder,
  header_before-IsOrder,
}

-- The first `n` pages of `size` rows are the first `n * size` of `rows`, whatever `n` and `size`, and
-- each page comes with the number of all rows.
pub record IsPaged {A V : Type 0} (view : A → V) (list : ℤ → ℤ → Result (List V × ℕ))
    (rows : List A) : Type 0 where
  pub pages : (size n : ℕ) → read_pages list size n ≡ ok (map view (take (n * size) rows))
  pub counts :
      (limit offset : ℕ)
      → list (pos limit) (pos offset) ≡ ok (map view (take limit (drop offset rows)), length rows)

IsPaged-of_slices :
    {A V : Type 0} (view : A → V) (list : ℤ → ℤ → Result (List V × ℕ)) (rows : List A)
    → ((limit offset : ℕ)
        → list (pos limit) (pos offset)
          ≡ ok (map view (take limit (drop offset rows)), length rows))
    → IsPaged view list rows
IsPaged-of_slices view list rows slices = record {
  pages = read_pages_slices view rows (length rows) list slices;
  counts = slices;
}

-- While the store does not change, the pages of the balances list are the slices of one list of rows:
-- exactly the rows that the filter selects, each once, by SKU and then warehouse. The total that
-- comes with each page is the number of these rows.
pub list_balances_complete :
    (db : Db) (f : BalanceFilter)
    → (rows : List Balance) × Perm rows (keep (selects_balance f) db.balances)
      × IsSorted balance_before rows
      × IsPaged balance_view (list_balances (still db) f) rows
unfolding list_balances list_total page
list_balances_complete db f =
    let selected = keep (selects_balance f) db.balances in
    (
      sort balance_before selected,
      sort-perm balance_before selected,
      sort-IsSorted balance_before balance_before-IsOrder selected,
      IsPaged-of_slices balance_view (list_balances (still db) f) (sort balance_before selected)
          λ limit offset. rw (
            keep-ext (where_clause (balance_conditions f)) (selects_balance f)
                (balance_conditions_lem f) db.balances,
            length-sort balance_before selected,
          ),
    )

-- While the store does not change, the pages of the movements list are the slices of the ledger's
-- rows that the filter selects, newest first. The total that comes with each page is the number of
-- these rows.
pub list_movements_complete :
    (db : Db) (f : MovementFilter)
    → IsPaged movement_view (list_movements (still db) f) (keep (selects_movement f) db.movements)
unfolding list_movements list_total page
list_movements_complete db f =
    IsPaged-of_slices movement_view (list_movements (still db) f)
      (keep (selects_movement f) db.movements)
      λ limit offset. rw (
        keep-ext (where_clause (movement_conditions f)) (selects_movement f)
          (movement_conditions_lem f) db.movements)

-- While the store does not change, the pages of the reservations list are the slices of one list of
-- headers: exactly those in the asked status, or all if none is asked, each once, newest first. The
-- total that comes with each page is the number of these headers.
pub list_reservations_complete :
    (db : Db) (status : GoString)
    → (rows : List Header) × Perm rows
        (keep (λ (h : Header). is_asked status (status_text h.status)) db.reservations)
      × IsSorted header_before rows
      × IsPaged reservation_view (list_reservations (still db) status) rows
unfolding list_reservations list_total page
list_reservations_complete db status =
    let selected = keep (λ (h : Header). is_asked status (status_text h.status)) db.reservations in
    (
      sort header_before selected,
      sort-perm header_before selected,
      sort-IsSorted header_before header_before-IsOrder selected,
      IsPaged-of_slices reservation_view (list_reservations (still db) status)
          (sort header_before selected)
          λ limit offset. rw (
            keep-ext (where_clause (status_conditions status))
                (λ h. is_asked status (status_text h.status)) (status_conditions_lem status)
                db.reservations,
            length-sort header_before selected,
          ),
    )
