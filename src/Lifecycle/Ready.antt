-- ===== src/Lifecycle/Ready.antt =====
-- The lines of a reservation that Release or Commit can end without a failure.
use inventory_service.Base.{
  GoString, ℤ, pos, ◌+ℤ◌, ◌-ℤ◌, ◌≤ℤ◌, IsInt64, ◌≡◌, refl, sym, ◌∙◌, true, none, some, Option, List,
  [], ◌∷◌, All, arith, int_laws,
}
use inventory_service.Domain.Types.{Allocation, Status}
use inventory_service.Domain.Errors.{Result, ok}
use inventory_service.Store.Rows.{Balance, Movement, bigint_add, bigint_sub, check_balance}
use inventory_service.Store.Balances.{find, update, replace, find-replace_ne}
use inventory_service.Store.Movements
use inventory_service.Store.Movements.{find_command, warehouse_exists, check_movement}
use inventory_service.Store.Reservations
use inventory_service.Store.Database.{Db, Env, transact}
use inventory_service.Store.Valid.{IsChecked}
use inventory_service.Reservations.Reserve.{
  reservation_movement, insert_reservation_movement, load_reservation_lines,
}
use inventory_service.Reservations.Transition.{
  Decision, proceed, transition, transition_body, lock_status, proceed_to, status_of, apply_lines,
  release_line, commit_line, sub_reserved, sub_both, one_row,
}
use inventory_service.Reservations.Lines.{ReturnStep, release_movement, commit_movement}

-- What a positive quantity leaves of a covering amount.
sub_room :
    (x q top : ℤ)
    → q ≤ℤ x
    → ¬ (q ≤ℤ pos 0)
    → x ≤ℤ top
    → IsInt64 top
    → IsInt64 (x -ℤ q) × (pos 0 ≤ℤ x -ℤ q) × (x -ℤ q ≤ℤ top -ℤ q) × (x -ℤ q ≤ℤ top)
sub_room x q top c p t r = (grind int_laws, grind int_laws, grind int_laws, grind int_laws)

pub record IsReady (command : GoString → GoString) (now : Db) (a : Allocation) : Type 0 where
  pub balance : Balance
  pub found : find a.sku_id a.warehouse_id now.balances ≡ some balance
  pub checked : IsChecked balance
  pub covered : a.quantity ≤ℤ balance.reserved
  pub positive : ¬ (a.quantity ≤ℤ pos 0)
  pub on_hand_room : IsInt64 balance.on_hand
  pub version_room : IsInt64 (balance.version +ℤ pos 1)
  pub fresh : find_command (command a.sku_id) now.movements ≡ none
  pub placed : warehouse_exists a.warehouse_id now.warehouses ≡ true

module _ (env : Env) (id : GoString) (command : GoString → GoString) where
  -- A round leaves the lines of other SKUs ready.
  IsReady-later :
      (a b : Allocation) (m : Movement) (now next : Db)
      → ReturnStep env id a m now next
      → m.command_id ≡ command a.sku_id
      → ¬ (command a.sku_id ≡ command b.sku_id)
      → ¬ (b.sku_id ≡ a.sku_id)
      → IsReady command now b
      → IsReady command next b
  unfolding find_command
  IsReady-later a b m now next done c d n r = record {
    balance = r.balance;
    found = rw done.step.balances (
        find-replace_ne a.sku_id a.warehouse_id b.sku_id b.warehouse_id done.step.after now.balances
          done.step.key (λ e. n e.0)
        ∙ r.found);
    checked = r.checked;
    covered = r.covered;
    positive = r.positive;
    on_hand_room = r.on_hand_room;
    version_room = r.version_room;
    fresh = rw done.step.movements (ground (arith, r.fresh));
    placed = rw done.step.warehouses r.placed;
  }

  sub_reserved_ready :
      (a : Allocation) (now : Db) (r : IsReady command now a)
      → (b' : Balance) × (sub_reserved env.now a.quantity r.balance ≡ ok b')
  unfolding sub_reserved bigint_sub bigint_add check_balance
  sub_reserved_ready a now r =
      let b = r.balance in
      let fine = r.checked in
      let q = r.covered in
      let p = r.positive in
      let o = r.on_hand_room in
      let v = r.version_room in
      let low = sub_room b.reserved a.quantity b.on_hand q p fine.3 o in
      let high = sub_room b.on_hand a.quantity b.on_hand (omega int_laws) p (omega arith) o in
      (
        record b {
          reserved = b.reserved -ℤ a.quantity;
          version = b.version +ℤ pos 1;
          updated_at = env.now;
        },
        ground arith,
      )

  sub_both_ready :
      (a : Allocation) (now : Db) (r : IsReady command now a)
      → (b' : Balance) × (sub_both env.now a.quantity r.balance ≡ ok b')
  unfolding sub_both bigint_sub bigint_add check_balance
  sub_both_ready a now r =
      let b = r.balance in
      let fine = r.checked in
      let q = r.covered in
      let p = r.positive in
      let o = r.on_hand_room in
      let v = r.version_room in
      let low = sub_room b.reserved a.quantity b.on_hand q p fine.3 o in
      let high = sub_room b.on_hand a.quantity b.on_hand (omega int_laws) p (omega arith) o in
      (
        record b {
          on_hand = b.on_hand -ℤ a.quantity;
          reserved = b.reserved -ℤ a.quantity;
          version = b.version +ℤ pos 1;
          updated_at = env.now;
        },
        ground arith,
      )

  insert_ready :
      (a : Allocation) (m : Movement) (now : Db)
      → IsReady command now a
      → m.command_id ≡ command a.sku_id
      → m.warehouse_id ≡ a.warehouse_id
      → check_movement m ≡ ok tt
      → Movements.insert now.warehouses m now.movements ≡ ok (m ∷ now.movements)
  unfolding Movements.insert
  insert_ready a m now r c w fits =
      let unused : find_command m.command_id now.movements ≡ none = rw c r.fresh in
      let there : warehouse_exists m.warehouse_id now.warehouses ≡ true = rw w r.placed in
      ground arith

  pub release_line_ready :
      (reason : GoString) (a : Allocation) (now : Db)
      → IsReady command now a
      → (release_movement env id a reason).command_id ≡ command a.sku_id
      → check_movement (release_movement env id a reason) ≡ ok tt
      → (next : Db) × (release_line env id reason a now ≡ ok next)
  unfolding release_line update one_row insert_reservation_movement reservation_movement
  release_line_ready reason a now r c fits =
      let (b', s) = sub_reserved_ready a now r in
      let i = insert_ready a (release_movement env id a reason) now r c refl fits in
      (
        record now {
          balances = replace a.sku_id a.warehouse_id b' now.balances;
          movements = release_movement env id a reason ∷ now.movements;
        },
        rw (r.found, update, s, i) refl,
      )

  pub commit_line_ready :
      (a : Allocation) (now : Db)
      → IsReady command now a
      → (commit_movement env id a).command_id ≡ command a.sku_id
      → check_movement (commit_movement env id a) ≡ ok tt
      → (next : Db) × (commit_line env id a now ≡ ok next)
  unfolding commit_line update one_row insert_reservation_movement reservation_movement
  commit_line_ready a now r c fits =
      let (b', s) = sub_both_ready a now r in
      let i = insert_ready a (commit_movement env id a) now r c refl fits in
      (
        record now {
          balances = replace a.sku_id a.warehouse_id b' now.balances;
          movements = commit_movement env id a ∷ now.movements;
        },
        rw (r.found, update, s, i) refl,
      )

-- No two of the lines are of the same SKU.
abbrev pub IsApart : List Allocation → Type 0
IsApart [] = Unit
IsApart (a ∷ rest) = All (λ b. ¬ (b.sku_id ≡ a.sku_id)) rest × IsApart rest

module _ (env : Env) (id : GoString) (command : GoString → GoString)
    (movement : Allocation → Movement) (apply_line : Allocation → Db → Result Db)
    (rounds : (a : Allocation) (now next : Db)
      → apply_line a now ≡ ok next
      → ReturnStep env id a (movement a) now next)
    (named : (a : Allocation) → (movement a).command_id ≡ command a.sku_id)
    (injective : (s t : GoString) → command s ≡ command t → s ≡ t)
    (works : (a : Allocation) (now : Db)
      → check_movement (movement a) ≡ ok tt
      → IsReady command now a
      → (next : Db) × (apply_line a now ≡ ok next)) where
  All-IsReady-later :
      (a : Allocation) (now next : Db) (rest : List Allocation)
      → ReturnStep env id a (movement a) now next
      → All (λ b. ¬ (b.sku_id ≡ a.sku_id)) rest
      → All (IsReady command now) rest
      → All (IsReady command next) rest
  All-IsReady-later a now next [] done apart ready = tt
  All-IsReady-later a now next (b ∷ rest) done apart ready = (
    IsReady-later env id command a b (movement a) now next done (named a)
        (λ e. apart.0 (sym (injective a.sku_id b.sku_id e))) apart.0 ready.0,
    All-IsReady-later a now next rest done apart.1 ready.1,
  )

  pub apply_lines_ready :
      (todo : List Allocation) (now : Db)
      → IsApart todo
      → All (λ a. check_movement (movement a) ≡ ok tt) todo
      → All (IsReady command now) todo
      → (next : Db) × (apply_lines apply_line todo now ≡ ok next)
  unfolding apply_lines
  apply_lines_ready [] now apart fits ready = (now, refl)
  apply_lines_ready (a ∷ rest) now apart fits ready =
      let (mid, e) = works a now fits.0 ready.0 in
      let (next, f) =
        apply_lines_ready rest mid apart.1 fits.1
          (All-IsReady-later a now mid rest (rounds a now mid e) apart.0 ready.1) in
      (next, rw (e, apply_lines) f)

module _ (env : Env) (id : GoString) (db : Db) (begins : env.begin ≡ none) (locks : env.lock ≡ none)
    (finishes : env.commit ≡ none) where
  pub transition_ready :
      (target : Status) (decide : Option Status → Decision)
      (apply_line : Allocation → Db → Result Db) (next : Db)
      → decide (status_of (Reservations.find id db.reservations)) ≡ proceed
      → apply_lines apply_line (load_reservation_lines db id) db ≡ ok next
      → (transition env id target decide apply_line db).0 ≡ ok target
  unfolding transition transition_body lock_status transact proceed_to
  transition_ready target decide apply_line next d e = ground (arith, d, e)
