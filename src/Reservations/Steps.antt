-- ===== src/Reservations/Steps.antt =====
-- What one round of the loops of Reserve, Release and Commit does.
use inventory_service.Base.{
  ℕ, GoString, ℤ, pos, ◌+ℤ◌, ◌-ℤ◌, ◌≤ℤ◌, ◌≡◌, true, false, none, some, List, ◌∷◌, arith,
}
use inventory_service.Domain.Types.{Allocation}
use inventory_service.Domain.Errors.{ok}
use inventory_service.Store.Rows.{
  Balance, Movement, ReservationLine, Warehouse, Header, bigint_add, bigint_sub, check_balance,
}
use inventory_service.Store.Balances.{find, replace, HasKey, replace-IsKeyed}
use inventory_service.Store.Movements
use inventory_service.Store.Movements.{find_command, check_movement, reference, warehouse_exists}
use inventory_service.Store.Reservations
use inventory_service.Store.Reservations.{insert_line, has_line, is_known}
use inventory_service.Store.Database.{Db}
use inventory_service.Store.Valid.{IsChecked, IsStocked, replace-IsChecked}
use inventory_service.Store.Ledger.{
  IsLedgered, IsLedgered-step, on_hand_at-replace, reserved_at-replace,
}
use inventory_service.Reservations.Reserve.{add_reserved}
use inventory_service.Reservations.Transition.{sub_reserved, sub_both}

-- One balance row rewritten as one new movement says; lines aside, nothing else.
pub record LineStep (a : Allocation) (m : Movement) (db db' : Db) : Type 0 where
  pub before : Balance
  pub after : Balance
  pub found : find a.sku_id a.warehouse_id db.balances ≡ some before
  pub key : HasKey a.sku_id a.warehouse_id after
  pub on_hand : after.on_hand ≡ before.on_hand +ℤ m.on_hand_delta
  pub reserved : after.reserved ≡ before.reserved +ℤ m.reserved_delta
  pub safety_stock : after.safety_stock ≡ before.safety_stock
  pub fine : IsChecked after
  pub balances : db'.balances ≡ replace a.sku_id a.warehouse_id after db.balances
  pub movements : db'.movements ≡ m ∷ db.movements
  pub fresh : find_command m.command_id db.movements ≡ none
  pub placed : warehouse_exists m.warehouse_id db.warehouses ≡ true
  pub reservations : db'.reservations ≡ db.reservations
  pub warehouses : db'.warehouses ≡ db.warehouses

module _ (a : Allocation) (m : Movement) (db db' : Db) (step : LineStep a m db db') where
  pub LineStep-IsStocked : IsStocked db → IsStocked db'
  LineStep-IsStocked h = record {
    checked =
        rw step.balances
          (replace-IsChecked a.sku_id a.warehouse_id step.after db.balances step.fine h.checked);
    keyed =
        rw step.balances
          (replace-IsKeyed a.sku_id a.warehouse_id step.after db.balances step.key h.keyed);
    unique = rw step.movements (step.fresh, h.unique);
  }

  pub LineStep-IsLedgered :
      (s : GoString) (w : ℤ)
      → m.sku_id ≡ a.sku_id
      → m.warehouse_id ≡ a.warehouse_id
      → IsLedgered s w db db'
  LineStep-IsLedgered s w es ew =
      IsLedgered-step s w m db db' step.movements
        (rw (step.balances, es, ew)
          (on_hand_at-replace s w a.sku_id a.warehouse_id step.before step.after m.on_hand_delta
            db.balances step.found step.key step.on_hand))
        (rw (step.balances, es, ew)
          (reserved_at-replace s w a.sku_id a.warehouse_id step.before step.after m.reserved_delta
            db.balances step.found step.key step.reserved))

-- An accepted movement.
pub insert-eq-ok :
    (hs : List Warehouse) (m : Movement) (ms : List Movement) {ms' : List Movement}
    → Movements.insert hs m ms ≡ ok ms'
    → (ms' ≡ m ∷ ms)
      × (find_command m.command_id ms ≡ none)
      × (warehouse_exists m.warehouse_id hs ≡ true)
unfolding Movements.insert
insert-eq-ok hs m ms h = ground arith

-- An accepted line.
pub insert_line-eq-ok :
    (ws : List Warehouse) (hs : List Header) (l : ReservationLine) (ls : List ReservationLine)
    {ls' : List ReservationLine}
    → insert_line ws hs l ls ≡ ok ls'
    → (ls' ≡ l ∷ ls)
      × (¬ (l.quantity ≤ℤ pos 0))
      × (is_known (Reservations.find l.reservation_id hs) ≡ true)
      × (has_line l.reservation_id l.sku_id ls ≡ false)
unfolding insert_line
insert_line-eq-ok ws hs l ls h = ground arith

pub add_reserved-eq-ok :
    (now : ℕ) (q : ℤ) (b : Balance) {b' : Balance}
    → add_reserved now q b ≡ ok b'
    → (b'.on_hand ≡ b.on_hand)
      × (b'.reserved ≡ b.reserved +ℤ q)
      × (b'.safety_stock ≡ b.safety_stock)
      × (b'.sku_id ≡ b.sku_id)
      × (b'.warehouse_id ≡ b.warehouse_id)
      × IsChecked b'
unfolding add_reserved bigint_add check_balance
add_reserved-eq-ok now q b h = ground arith

pub sub_reserved-eq-ok :
    (now : ℕ) (q : ℤ) (b : Balance) {b' : Balance}
    → sub_reserved now q b ≡ ok b'
    → (b'.on_hand ≡ b.on_hand)
      × (b'.reserved ≡ b.reserved -ℤ q)
      × (b'.safety_stock ≡ b.safety_stock)
      × (b'.sku_id ≡ b.sku_id)
      × (b'.warehouse_id ≡ b.warehouse_id)
      × IsChecked b'
unfolding sub_reserved bigint_add bigint_sub check_balance
sub_reserved-eq-ok now q b h = ground arith

pub sub_both-eq-ok :
    (now : ℕ) (q : ℤ) (b : Balance) {b' : Balance}
    → sub_both now q b ≡ ok b'
    → (b'.on_hand ≡ b.on_hand -ℤ q)
      × (b'.reserved ≡ b.reserved -ℤ q)
      × (b'.safety_stock ≡ b.safety_stock)
      × (b'.sku_id ≡ b.sku_id)
      × (b'.warehouse_id ≡ b.warehouse_id)
      × IsChecked b'
unfolding sub_both bigint_add bigint_sub check_balance
sub_both-eq-ok now q b h = ground arith
