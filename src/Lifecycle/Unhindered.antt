-- ===== src/Lifecycle/Unhindered.antt =====
-- Release and Commit of a RESERVED reservation, when nothing stands in their way.
use inventory_service.Base.{
  GoString, codes, text_eq, pos, ◌+ℤ◌, ◌≤ℤ◌, IsInt64, ◌≡◌, refl, ap, true, none, some, List, [],
  ◌∷◌, ◌++◌, All, arith, inl, inr, Option-cases,
}
use inventory_service.Domain.Types.{Allocation, reserved, released, committed}
use inventory_service.Domain.Errors.{ok}
use inventory_service.Store.Rows.{Balance, Movement, ReservationLine}
use inventory_service.Store.Balances
use inventory_service.Store.Movements.{find_command, check_movement}
use inventory_service.Store.Reservations.{find, allocation_of}
use inventory_service.Store.Database.{Db, Env}
use inventory_service.Store.Valid.{find-IsChecked}
use inventory_service.Reservations.Reserve.{
  load_reservation_lines, command_id_of, reservation_movement,
}
use inventory_service.Reservations.Transition.{
  status_of, release, commit, release_line, commit_line, decide_release, decide_commit,
}
use inventory_service.Reservations.Lines.{
  release_movement, commit_movement, release_line-ReturnStep, commit_line-ReturnStep,
}
use inventory_service.Reservations.Held.{held, is_open}
use inventory_service.Consistency.Defs.{IsConsistent}
use inventory_service.Consistency.Schema.{IsIntact, IsPlaced}
use inventory_service.Lifecycle.Ready.{
  IsReady, apply_lines_ready, transition_ready, release_line_ready, commit_line_ready,
}
use inventory_service.Lifecycle.Lined.{
  load-IsApart, All-in_lock_order, All-lines_of, lines_of, IsPositive, held-head, held-grows,
  find-All,
}

append_cancel : (xs ys zs : GoString) → xs ++ ys ≡ xs ++ zs → ys ≡ zs
append_cancel [] ys zs h = h
append_cancel (x ∷ xs) ys zs h = append_cancel xs ys zs (cc h)

command_id_of_injective :
    (prefix id s t : GoString) → command_id_of prefix id s ≡ command_id_of prefix id t → s ≡ t
unfolding command_id_of
command_id_of_injective prefix id s t h = append_cancel (prefix ++ id ++ codes ":") s t h

All-apply :
    (P Q : Allocation → Type 0) (xs : List Allocation)
    → All (λ a. Q a → P a) xs
    → All Q xs
    → All P xs
All-apply P Q [] f q = tt
All-apply P Q (x ∷ xs) f q = (f.0 q.0, All-apply P Q xs f.1 q.1)

module _ (db : Db) (id : GoString) where
  -- If the line is one of the reservation's, its quantity is part of what is held.
  abbrev IsHeldBy : List ReservationLine → ReservationLine → Type 0
  IsHeldBy ls l =
      text_eq l.reservation_id id ≡ true
      → l.quantity ≤ℤ held l.sku_id l.warehouse_id db.reservations ls

  All-IsHeldBy-cons :
      (x : ReservationLine) (ls ms : List ReservationLine)
      → IsPositive x
      → All (IsHeldBy ls) ms
      → All (IsHeldBy (x ∷ ls)) ms
  All-IsHeldBy-cons x ls [] p h = tt
  All-IsHeldBy-cons x ls (m ∷ ms) p h = (
    (λ e.
        let small = h.0 e in
        let more = held-grows m.sku_id m.warehouse_id db.reservations x ls p in omega arith),
    All-IsHeldBy-cons x ls ms p h.1,
  )

  All-IsHeldBy :
      (ls : List ReservationLine)
      → All IsPositive ls
      → is_open (find id db.reservations) ≡ true
      → All (IsHeldBy ls) ls
  All-IsHeldBy [] p o = tt
  All-IsHeldBy (l ∷ ls) p o = (
    (λ e.
        let same : l.reservation_id ≡ id = ground arith in
        held-head db.reservations l ls p.1 (rw same o)),
    All-IsHeldBy-cons l ls ls p.0 (All-IsHeldBy ls p.1 o),
  )

  -- A row whose next version, and whose on_hand, fit a BIGINT.
  abbrev pub HasRoom : Balance → Type 0
  HasRoom b = IsInt64 b.on_hand × IsInt64 (b.version +ℤ pos 1)

  -- A line that is positive, placed and held, and whose command id is new, is ready.
  line-IsReady :
      (command : GoString → GoString) (l : ReservationLine)
      → IsConsistent db
      → All HasRoom db.balances
      → IsPositive l
      → IsPlaced db.warehouses l.warehouse_id
      → l.quantity ≤ℤ held l.sku_id l.warehouse_id db.reservations db.lines
      → find_command (command l.sku_id) db.movements ≡ none
      → IsReady command db (allocation_of l)
  line-IsReady command l c room p at h f =
      let same = c.held l.sku_id l.warehouse_id in
      elim (Option-cases (Balances.find l.sku_id l.warehouse_id db.balances)) [
        | inl n ↦ absurd (let zero_held = rw n at same in p (rw (← zero_held) at h))
        | inr (b, e) ↦
            let (o, v) = find-All HasRoom l.sku_id l.warehouse_id {b = b} db.balances room e in
            record {
              balance = b;
              found = e;
              checked =
                  find-IsChecked l.sku_id l.warehouse_id {b = b} db.balances c.stocked.checked e;
              covered = rw (rw e at same) h;
              positive = p;
              on_hand_room = o;
              version_room = v;
              fresh = f;
              placed = at;
            }
      ]

  lines-IsReady :
      (command : GoString → GoString) (ls : List ReservationLine)
      → IsConsistent db
      → All HasRoom db.balances
      → All IsPositive ls
      → All (λ (l : ReservationLine). IsPlaced db.warehouses l.warehouse_id) ls
      → All (IsHeldBy db.lines) ls
      → All
          (λ (l : ReservationLine).
            text_eq l.reservation_id id ≡ true
            → find_command (command l.sku_id) db.movements ≡ none
            → IsReady command db (allocation_of l))
          ls
  lines-IsReady command [] c room p at h = tt
  lines-IsReady command (l ∷ ls) c room p at h = (
    (λ e f. line-IsReady command l c room p.0 at.0 (h.0 e) f),
    lines-IsReady command ls c room p.1 at.1 h.1,
  )

  load-IsReady :
      (command : GoString → GoString)
      → IsConsistent db
      → IsIntact db
      → is_open (find id db.reservations) ≡ true
      → All HasRoom db.balances
      → All
          (λ a. find_command (command a.sku_id) db.movements ≡ none)
          (load_reservation_lines db id)
      → All (IsReady command db) (load_reservation_lines db id)
  unfolding load_reservation_lines
  load-IsReady command c i o room fresh =
      All-apply (IsReady command db) (λ a. find_command (command a.sku_id) db.movements ≡ none)
        (load_reservation_lines db id)
        (All-in_lock_order _ (lines_of id db.lines) (
          All-lines_of id _ db.lines (
            lines-IsReady command db.lines c room i.quantities i.lines_placed
              (All-IsHeldBy db.lines i.quantities o))))
        fresh

  -- Nothing stands in the way of a call that writes these movements: its transaction can begin, lock
  -- and commit, the rows have room for the next version, and the movements fit their columns and have
  -- command ids that are not used yet.
  pub record IsClear (env : Env) (movement : Allocation → Movement) : Type 0 where
    pub begins : env.begin ≡ none
    pub locks : env.lock ≡ none
    pub finishes : env.commit ≡ none
    pub room : All HasRoom db.balances
    pub fits : All (λ a. check_movement (movement a) ≡ ok tt) (load_reservation_lines db id)
    pub fresh :
        All
          (λ a. find_command (movement a).command_id db.movements ≡ none)
          (load_reservation_lines db id)

  open_of_reserved :
      status_of (find id db.reservations) ≡ some reserved → is_open (find id db.reservations) ≡ true
  open_of_reserved h = elim (Option-cases (find id db.reservations)) [
    | inl n ↦ absurd (cc (rw n at h))
    | inr (x, e) ↦ rw e (ground arith)
  ]

  -- A held reservation can be let go. In a consistent and intact store, Release of a reservation that
  -- is RESERVED succeeds with RELEASED if nothing stands in its way: no balance falls short of a
  -- line, and no line is in the way of another.
  pub release_unhindered :
      (env : Env) (reason : GoString)
      → IsConsistent db
      → IsIntact db
      → status_of (find id db.reservations) ≡ some reserved
      → IsClear env (λ a. release_movement env id a reason)
      → (release env id reason db).0 ≡ ok released
  unfolding release decide_release reservation_movement
  release_unhindered env reason c i pending clear =
      let command = command_id_of (codes "rel:") id in
      let (next, e) =
        apply_lines_ready env id command (λ a. release_movement env id a reason)
          (release_line env id reason)
          (λ a now next d. release_line-ReturnStep env id a reason now next d) (λ a. refl)
          (command_id_of_injective (codes "rel:") id)
          (λ a now fits r. release_line_ready env id command reason a now r refl fits)
          (load_reservation_lines db id) db (load-IsApart id db i.lines) clear.fits
          (load-IsReady command c i (open_of_reserved pending) clear.room clear.fresh) in
      transition_ready env id db clear.begins clear.locks clear.finishes released decide_release
        (release_line env id reason) next (ap decide_release pending) e

  -- A held reservation can be sold. In a consistent and intact store, Commit of a reservation that is
  -- RESERVED succeeds with COMMITTED if nothing stands in its way: no balance falls short of a line,
  -- and no line is in the way of another.
  pub commit_unhindered :
      (env : Env)
      → IsConsistent db
      → IsIntact db
      → status_of (find id db.reservations) ≡ some reserved
      → IsClear env (commit_movement env id)
      → (commit env id db).0 ≡ ok committed
  unfolding commit decide_commit reservation_movement
  commit_unhindered env c i pending clear =
      let command = command_id_of (codes "cmt:") id in
      let (next, e) =
        apply_lines_ready env id command (commit_movement env id) (commit_line env id)
          (λ a now next d. commit_line-ReturnStep env id a now next d) (λ a. refl)
          (command_id_of_injective (codes "cmt:") id)
          (λ a now fits r. commit_line_ready env id command a now r refl fits)
          (load_reservation_lines db id) db (load-IsApart id db i.lines) clear.fits
          (load-IsReady command c i (open_of_reserved pending) clear.room clear.fresh) in
      transition_ready env id db clear.begins clear.locks clear.finishes committed decide_commit
        (commit_line env id) next (ap decide_commit pending) e
