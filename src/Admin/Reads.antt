-- ===== src/Admin/Reads.antt =====
-- internal/core/repository/admin_reads.go. A condition of a WHERE clause is a test on rows. The
-- count and the page are two statements: each fails, or sees a committed state of its own.
use inventory_service.Base.{
  ℕ, GoString, codes, text_eq, text_ltb, ℤ, pos, ◌-ℤ◌, ltb_ℤ, leb_ℤ, int_eq, Bool, true, ◌&&◌,
  if◌then◌else◌, ltb, length, keep, take, drop, sort, lexicographic, List, [], ◌∷◌, ◌++◌, map,
}
use inventory_service.Domain.Types.{Status, reserved, committed, released, expired}
use inventory_service.Domain.Errors.{Result, ok, err, pg, other_state, ◌>>=◌}
use inventory_service.Store.Rows.{Balance, Movement, Header}
use inventory_service.Store.Database.{Db}
use inventory_service.Stock.Commands.{coalesce}
use inventory_service.Admin.Views.{
  BalanceView, BalanceFilter, MovementView, MovementFilter, ReservationView,
}

-- What the two statements of a list see.
pub record ListReads : Type 0 where
  pub counted : Result Db
  pub listed : Result Db

-- `WHERE c AND d …`, or no WHERE.
unfoldable pub where_clause : {A : Type 0} → List (A → Bool) → A → Bool
where_clause [] row = true
where_clause (c ∷ cs) row = c row && where_clause cs row

-- `sku_id = $n`, unless the text is empty
unfoldable pub sku_condition : {A : Type 0} → (A → GoString) → GoString → List (A → Bool)
sku_condition column [] = []
sku_condition column (c ∷ cs) = (λ row. text_eq (column row) (c ∷ cs)) ∷ []

-- `warehouse_id = $n`, if the number is positive
unfoldable pub warehouse_condition : {A : Type 0} → (A → ℤ) → ℤ → List (A → Bool)
warehouse_condition column w = if ltb_ℤ (pos 0) w then (λ row. int_eq (column row) w) ∷ [] else []

-- `(on_hand - reserved) <= safety_stock`; the CHECKs keep the difference within BIGINT.
abbrev pub is_low : Balance → Bool
is_low b = leb_ℤ (b.on_hand -ℤ b.reserved) b.safety_stock

-- balanceConditions
unfoldable pub balance_conditions : BalanceFilter → List (Balance → Bool)
unfolding sku_condition warehouse_condition
balance_conditions f =
    sku_condition (λ (b : Balance). b.sku_id) f.sku_id
    ++ warehouse_condition (λ (b : Balance). b.warehouse_id) f.warehouse_id
    ++ (if f.low_stock_only then is_low ∷ [] else [])

unfoldable pub movement_conditions : MovementFilter → List (Movement → Bool)
unfolding sku_condition warehouse_condition
movement_conditions f =
    sku_condition (λ (m : Movement). m.sku_id) f.sku_id
    ++ warehouse_condition (λ (m : Movement). m.warehouse_id) f.warehouse_id

-- listTotal
unfoldable pub list_total : {A : Type 0} → Result Db → (Db → List A) → (A → Bool) → Result ℕ
list_total counted table clause = do db ← counted; ok (length (keep clause (table db)))

-- `LIMIT l OFFSET o` refuses negative numbers.
unfoldable pub page : {A : Type 0} → ℤ → ℤ → List A → Result (List A)
page (pos limit) (pos offset) rows = ok (take limit (drop offset rows))
page _ _ rows = err (pg other_state)

-- `ORDER BY sku_id, warehouse_id`
abbrev pub balance_before : Balance → Balance → Bool
balance_before =
    lexicographic (λ a b. text_ltb a.sku_id b.sku_id) (λ a b. ltb_ℤ a.warehouse_id b.warehouse_id)

-- The SELECT list of a balance.
unfoldable pub balance_view : Balance → BalanceView
balance_view b = record {
  sku_id = b.sku_id;
  warehouse_id = b.warehouse_id;
  on_hand = b.on_hand;
  reserved = b.reserved;
  safety_stock = b.safety_stock;
  atp = b.on_hand -ℤ b.reserved;
  updated_at = b.updated_at;
}

unfoldable pub list_balances : ListReads → BalanceFilter → ℤ → ℤ → Result (List BalanceView × ℕ)
list_balances reads f limit offset = do
  let clause = where_clause (balance_conditions f)
  total ← list_total reads.counted (λ db. db.balances) clause
  db ← reads.listed
  rows ← page limit offset (sort balance_before (keep clause db.balances))
  ok (map balance_view rows, total)

-- `WHERE sku_id = $1 ORDER BY warehouse_id`
unfoldable pub sku_balances : Result Db → GoString → Result (List BalanceView)
sku_balances read s = do
  db ← read
  let rows = keep (λ (b : Balance). text_eq b.sku_id s) db.balances
  ok (map balance_view (sort (λ a b. ltb_ℤ a.warehouse_id b.warehouse_id) rows))

unfoldable pub movement_view : Movement → MovementView
movement_view m = record {
  command_id = m.command_id;
  sku_id = m.sku_id;
  warehouse_id = m.warehouse_id;
  type = m.type;
  on_hand_delta = m.on_hand_delta;
  reserved_delta = m.reserved_delta;
  reference_type = m.reference_type;
  reference_id = coalesce m.reference_id;
  reason = coalesce m.reason;
  actor = coalesce m.actor;
  created_at = m.created_at;
}

-- `ORDER BY id DESC` is the order of the table.
unfoldable pub list_movements : ListReads → MovementFilter → ℤ → ℤ → Result (List MovementView × ℕ)
list_movements reads f limit offset = do
  let clause = where_clause (movement_conditions f)
  total ← list_total reads.counted (λ db. db.movements) clause
  db ← reads.listed
  rows ← page limit offset (keep clause db.movements)
  ok (map movement_view rows, total)

-- A status as the column holds it.
unfoldable pub status_text : Status → GoString
status_text reserved = codes "reserved"
status_text committed = codes "committed"
status_text released = codes "released"
status_text expired = codes "expired"

-- `status = $1`, unless the text is empty
unfoldable pub status_conditions : GoString → List (Header → Bool)
unfolding sku_condition
status_conditions s = sku_condition (λ (h : Header). status_text h.status) s

-- `ORDER BY created_at DESC, id DESC`
abbrev pub header_before : Header → Header → Bool
header_before = lexicographic (λ a b. ltb b.created_at a.created_at) (λ a b. text_ltb b.id a.id)

unfoldable pub reservation_view : Header → ReservationView
reservation_view h = record {
  id = h.id;
  order_id = h.external_reference;
  status = h.status;
  expires_at = h.expires_at;
  created_at = h.created_at;
  updated_at = h.updated_at;
}

unfoldable pub list_reservations : ListReads → GoString → ℤ → ℤ → Result (List ReservationView × ℕ)
list_reservations reads status limit offset = do
  let clause = where_clause (status_conditions status)
  total ← list_total reads.counted (λ db. db.reservations) clause
  db ← reads.listed
  rows ← page limit offset (sort header_before (keep clause db.reservations))
  ok (map reservation_view rows, total)
