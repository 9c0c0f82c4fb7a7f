-- ===== src/Reservations/Lines.antt =====
-- One round of each of the loops: the row, the line and the movement that it writes.
use inventory_service.Base.{
  GoString, codes, ℤ, pos, ◌+ℤ◌, ◌-ℤ◌, ◌≤ℤ◌, negate, ◌≡◌, ◌∙◌, true, false, none, some, List, ◌∷◌,
  arith, int_laws, inl, inr, Option-cases, add-zero_ℤ,
}
use inventory_service.Domain.Types.{Allocation, MovementType}
use inventory_service.Domain.Errors.{ok, Result-cases}
use inventory_service.Store.Rows.{Balance, Movement, ReservationLine}
use inventory_service.Store.Balances.{find, replace, update, find-HasKey}
use inventory_service.Store.Movements
use inventory_service.Store.Reservations
use inventory_service.Store.Reservations.{insert_line, is_known, has_line}
use inventory_service.Store.Database.{Db, Env}
use inventory_service.Store.Valid.{IsChecked}
use inventory_service.Reservations.Reserve.{
  reservation_movement, insert_reservation_movement, command_id_of, reserve_line, add_reserved,
}
use inventory_service.Reservations.Transition.{
  release_line, commit_line, sub_reserved, sub_both, one_row, null_if_empty,
}
use inventory_service.Reservations.Steps.{
  LineStep, insert-eq-ok, insert_line-eq-ok, add_reserved-eq-ok, sub_reserved-eq-ok, sub_both-eq-ok,
}

sub-eq-add_negate : (a b : ℤ) → a -ℤ b ≡ a +ℤ negate b
sub-eq-add_negate a b = omega int_laws

module _ (env : Env) (id : GoString) (a : Allocation) where
  abbrev pub line_of : ReservationLine
  line_of = record {
    reservation_id = id;
    sku_id = a.sku_id;
    warehouse_id = a.warehouse_id;
    quantity = a.quantity;
  }

  abbrev pub reserve_movement : Movement
  reserve_movement =
      reservation_movement env (command_id_of (codes "res:") id a.sku_id) a MovementType.reserve
        (pos 0) a.quantity id none

  abbrev pub release_movement : GoString → Movement
  release_movement reason =
      reservation_movement env (command_id_of (codes "rel:") id a.sku_id) a MovementType.release
        (pos 0) (negate a.quantity) id (null_if_empty reason)

  abbrev pub commit_movement : Movement
  commit_movement =
      reservation_movement env (command_id_of (codes "cmt:") id a.sku_id) a
        MovementType.sale_committed (negate a.quantity) (negate a.quantity) id none

  -- A round of Reserve whose balance row exists.
  pub record ReserveStep (db db' : Db) : Type 0 where
    pub step : LineStep a reserve_movement db db'
    pub lines : db'.lines ≡ line_of ∷ db.lines
    pub positive : ¬ (a.quantity ≤ℤ pos 0)
    pub known : is_known (Reservations.find id db.reservations) ≡ true
    pub unlisted : has_line id a.sku_id db.lines ≡ false

  pub reserve_line-ReserveStep :
      (db db' : Db) (b : Balance)
      → find a.sku_id a.warehouse_id db.balances ≡ some b
      → reserve_line env id a db ≡ ok db'
      → ReserveStep db db'
  unfolding reserve_line update insert_reservation_movement reservation_movement
  reserve_line-ReserveStep db db' b f h = elim (Result-cases (add_reserved env.now a.quantity b)) [
    | inl (b', e₁) ↦
        elim (Result-cases (insert_line db.warehouses db.reservations line_of db.lines)) [
          | inl (ls, e₂) ↦
              elim (Result-cases (Movements.insert db.warehouses reserve_movement db.movements)) [
                | inl (ms, e₃) ↦
                    let (eo, er, safe, es, ew, fine) =
                      add_reserved-eq-ok env.now a.quantity b {b' = b'} e₁ in
                    let (same_sku, same_warehouse) =
                      find-HasKey a.sku_id a.warehouse_id {b = b} db.balances f in
                    let (new_lines, positive, known, unlisted) =
                      insert_line-eq-ok db.warehouses db.reservations line_of db.lines {ls' = ls}
                        e₂ in
                    let (new_movements, fresh, placed) =
                      insert-eq-ok db.warehouses reserve_movement db.movements {ms' = ms} e₃ in
                    let stored : db' ≡ record db {
                      balances = replace a.sku_id a.warehouse_id b' db.balances;
                      lines = ls;
                      movements = ms;
                    } =
                      ground arith in
                    record {
                      step = record {
                        before = b;
                        after = b';
                        found = f;
                        key = (es ∙ same_sku, ew ∙ same_warehouse);
                        on_hand = eo ∙ add-zero_ℤ b.on_hand;
                        reserved = er;
                        safety_stock = safe;
                        fine = fine;
                        balances = rw stored;
                        movements = rw (stored, new_movements);
                        fresh = fresh;
                        placed = placed;
                        reservations = rw stored;
                        warehouses = rw stored;
                      };
                      lines = rw (stored, new_lines);
                      positive = positive;
                      known = known;
                      unlisted = unlisted;
                    }
                | inr (x, e₃) ↦ absurd (ground arith)
              ]
          | inr (x, e₂) ↦ absurd (ground arith)
        ]
    | inr (x, e₁) ↦ absurd (ground arith)
  ]

  -- A round of Reserve for nothing fails: the CHECK on the line's quantity refuses it.
  pub reserve_line-positive :
      (db db' : Db) → reserve_line env id a db ≡ ok db' → ¬ (a.quantity ≤ℤ pos 0)
  unfolding reserve_line insert_line
  reserve_line-positive db db' h p = ground arith

  -- A round of Release or Commit: the lines stay.
  pub record ReturnStep (m : Movement) (db db' : Db) : Type 0 where
    pub step : LineStep a m db db'
    pub lines : db'.lines ≡ db.lines

  -- What is common to Release and Commit: an accepted row of the UPDATE, then the movement.
  returned :
      (m : Movement) (db db' : Db) (b b' : Balance) (ms : List Movement)
      → find a.sku_id a.warehouse_id db.balances ≡ some b
      → (b'.on_hand ≡ b.on_hand +ℤ m.on_hand_delta)
        × (b'.reserved ≡ b.reserved +ℤ m.reserved_delta)
        × (b'.safety_stock ≡ b.safety_stock)
        × (b'.sku_id ≡ b.sku_id)
        × (b'.warehouse_id ≡ b.warehouse_id)
        × IsChecked b'
      → Movements.insert db.warehouses m db.movements ≡ ok ms
      → db'
        ≡ record db { balances = replace a.sku_id a.warehouse_id b' db.balances; movements = ms }
      → ReturnStep m db db'
  returned m db db' b b' ms f (eo, er, safe, es, ew, fine) e stored =
      let (same_sku, same_warehouse) = find-HasKey a.sku_id a.warehouse_id {b = b} db.balances f in
      let (new_movements, fresh, placed) = insert-eq-ok db.warehouses m db.movements {ms' = ms} e in
      record {
        step = record {
          before = b;
          after = b';
          found = f;
          key = (es ∙ same_sku, ew ∙ same_warehouse);
          on_hand = eo;
          reserved = er;
          safety_stock = safe;
          fine = fine;
          balances = rw stored;
          movements = rw (stored, new_movements);
          fresh = fresh;
          placed = placed;
          reservations = rw stored;
          warehouses = rw stored;
        };
        lines = rw stored;
      }

  sub_reserved-sets :
      (b b' : Balance)
      → sub_reserved env.now a.quantity b ≡ ok b'
      → (b'.on_hand ≡ b.on_hand +ℤ pos 0)
        × (b'.reserved ≡ b.reserved +ℤ negate a.quantity)
        × (b'.safety_stock ≡ b.safety_stock)
        × (b'.sku_id ≡ b.sku_id)
        × (b'.warehouse_id ≡ b.warehouse_id)
        × IsChecked b'
  sub_reserved-sets b b' e =
      let (eo, er, safe, es, ew, fine) = sub_reserved-eq-ok env.now a.quantity b {b' = b'} e in
      (eo ∙ add-zero_ℤ b.on_hand, er ∙ sub-eq-add_negate b.reserved a.quantity, safe, es, ew, fine)

  sub_both-sets :
      (b b' : Balance)
      → sub_both env.now a.quantity b ≡ ok b'
      → (b'.on_hand ≡ b.on_hand +ℤ negate a.quantity)
        × (b'.reserved ≡ b.reserved +ℤ negate a.quantity)
        × (b'.safety_stock ≡ b.safety_stock)
        × (b'.sku_id ≡ b.sku_id)
        × (b'.warehouse_id ≡ b.warehouse_id)
        × IsChecked b'
  sub_both-sets b b' e =
      let (eo, er, safe, es, ew, fine) = sub_both-eq-ok env.now a.quantity b {b' = b'} e in
      (
        eo ∙ sub-eq-add_negate b.on_hand a.quantity,
        er ∙ sub-eq-add_negate b.reserved a.quantity,
        safe,
        es,
        ew,
        fine,
      )

  pub release_line-ReturnStep :
      (reason : GoString) (db db' : Db)
      → release_line env id reason a db ≡ ok db'
      → ReturnStep (release_movement reason) db db'
  unfolding release_line update insert_reservation_movement reservation_movement one_row
  release_line-ReturnStep reason db db' h =
      elim (Option-cases (find a.sku_id a.warehouse_id db.balances)) [
        | inl f ↦ absurd (ground arith)
        | inr (b, f) ↦ elim (Result-cases (sub_reserved env.now a.quantity b)) [
          | inr (x, e₁) ↦ absurd (ground arith)
          | inl (b', e₁) ↦
              elim (Result-cases
                (Movements.insert db.warehouses (release_movement reason) db.movements)) [
                  | inr (x, e₂) ↦ absurd (ground arith)
                  | inl (ms, e₂) ↦
                      returned (release_movement reason) db db' b b' ms f
                        (sub_reserved-sets b b' e₁) e₂ (ground arith)
                ]
        ]
      ]

  pub commit_line-ReturnStep :
      (db db' : Db) → commit_line env id a db ≡ ok db' → ReturnStep commit_movement db db'
  unfolding commit_line update insert_reservation_movement reservation_movement one_row
  commit_line-ReturnStep db db' h = elim (Option-cases (find a.sku_id a.warehouse_id db.balances)) [
    | inl f ↦ absurd (ground arith)
    | inr (b, f) ↦ elim (Result-cases (sub_both env.now a.quantity b)) [
      | inr (x, e₁) ↦ absurd (ground arith)
      | inl (b', e₁) ↦
          elim (Result-cases (Movements.insert db.warehouses commit_movement db.movements)) [
            | inr (x, e₂) ↦ absurd (ground arith)
            | inl (ms, e₂) ↦
                returned commit_movement db db' b b' ms f (sub_both-sets b b' e₁) e₂ (ground arith)
          ]
    ]
  ]
