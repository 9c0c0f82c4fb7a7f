-- ===== src/Consistency/Closing.antt =====
-- Release and Commit keep the reservations and the balances consistent.
use inventory_service.Base.{
  ℕ, GoString, ℤ, ◌+ℤ◌, negate, ◌≡◌, refl, ap, sym, ◌∙◌, true, false, Option, List, [], ◌∷◌, All,
  arith, int_laws, add-zero_ℤ,
}
use inventory_service.Domain.Types.{Allocation, Status, committed, released}
use inventory_service.Domain.Errors.{Result, ok}
use inventory_service.Store.Rows.{Header, Movement, ReservationLine}
use inventory_service.Store.Reservations.{find, set_status}
use inventory_service.Store.Database.{Db, Env}
use inventory_service.Store.Valid.{IsStocked}
use inventory_service.Store.Ledger.{reserved_at, reserved_at-replace, moved-negate}
use inventory_service.Reservations.Reserve.{reservation_movement, load_reservation_lines}
use inventory_service.Reservations.Transition.{
  Decision, proceed, transition, decide_release, decide_commit, status_of, release_line,
  commit_line, release, commit,
}
use inventory_service.Reservations.Steps.{LineStep-IsStocked}
use inventory_service.Reservations.Lines.{
  ReturnStep, release_movement, commit_movement, release_line-ReturnStep, commit_line-ReturnStep,
}
use inventory_service.Reservations.Held.{
  held, sum_at, sum_at-in_lock_order, held-set_status, IsKnown, IsKnown-set_status, is_open,
  is_reserved,
}
use inventory_service.Reservations.Loops.{apply_lines_induction}
use inventory_service.Reservations.Cases.{transition_cases}
use inventory_service.Consistency.Defs.{IsConsistent}

All-IsKnown-set_status :
    (i : GoString) (st : Status) (now : ℕ) (hs : List Header) (ls : List ReservationLine)
    → All (IsKnown hs) ls
    → All (IsKnown (set_status i st now hs)) ls
All-IsKnown-set_status i st now hs [] k = tt
All-IsKnown-set_status i st now hs (l ∷ ls) k =
    (IsKnown-set_status i st now hs l k.0, All-IsKnown-set_status i st now hs ls k.1)

-- Only a RESERVED reservation can proceed.
pub is_open_of_release :
    (o : Option Header) → decide_release (status_of o) ≡ proceed → is_open o ≡ true
unfolding decide_release
is_open_of_release o h = ground arith

pub is_open_of_commit :
    (o : Option Header) → decide_commit (status_of o) ≡ proceed → is_open o ≡ true
unfolding decide_commit
is_open_of_commit o h = ground arith

-- A line's round takes its quantity out of `reserved`.
abbrev pub Returns : Env → GoString → (Allocation → Db → Result Db) → Type 0
Returns env id apply_line =
    (a : Allocation) (db db' : Db)
    → apply_line a db ≡ ok db'
    → (m : Movement) × ReturnStep env id a m db db' × (m.reserved_delta ≡ negate a.quantity)

release_line-Returns :
    (env : Env) (id reason : GoString) → Returns env id (release_line env id reason)
unfolding reservation_movement
release_line-Returns env id reason a db db' h =
    (release_movement env id a reason, release_line-ReturnStep env id a reason db db' h, refl)

commit_line-Returns : (env : Env) (id : GoString) → Returns env id (commit_line env id)
unfolding reservation_movement
commit_line-Returns env id a db db' h =
    (commit_movement env id a, commit_line-ReturnStep env id a db db' h, refl)

module _ (env : Env) (id : GoString) (target : Status) (db : Db) where
  -- Half way through the loop: the lines that are left still count as reserved.
  abbrev closed : List Header
  closed = set_status id target env.now db.reservations

  record IsHalfway (todo : List Allocation) (now : Db) : Type 0 where
    stocked : IsStocked now
    lines : now.lines ≡ db.lines
    reservations : now.reservations ≡ db.reservations
    held :
        (s : GoString) (w : ℤ)
        → reserved_at s w now.balances ≡ held s w closed db.lines +ℤ sum_at s w todo

  give_back : (r h t q : ℤ) → r ≡ h +ℤ (q +ℤ t) → r +ℤ negate q ≡ h +ℤ t
  give_back r h t q e = rw e (omega int_laws)

  IsHalfway-step :
      (a : Allocation) (rest : List Allocation) (m : Movement) (now next : Db)
      → ReturnStep env id a m now next
      → m.reserved_delta ≡ negate a.quantity
      → IsHalfway (a ∷ rest) now
      → IsHalfway rest next
  unfolding sum_at
  IsHalfway-step a rest m now next done e p = record {
    stocked = LineStep-IsStocked a m now next done.step p.stocked;
    lines = done.lines ∙ p.lines;
    reservations = done.step.reservations ∙ p.reservations;
    held = λ s w. rw done.step.balances (
        reserved_at-replace s w a.sku_id a.warehouse_id done.step.before done.step.after
          (negate a.quantity) now.balances done.step.found done.step.key
          (done.step.reserved ∙ ap (λ t. done.step.before.reserved +ℤ t) e)
        ∙ ap (λ t. reserved_at s w now.balances +ℤ t)
            (moved-negate s w a.sku_id a.warehouse_id a.quantity)
        ∙ give_back _ _ _ _ (p.held s w));
  }

  IsHalfway-start :
      is_open (find id db.reservations) ≡ true
      → is_reserved target ≡ false
      → IsConsistent db
      → IsHalfway (load_reservation_lines db id) db
  unfolding load_reservation_lines
  IsHalfway-start o t c = record {
    stocked = c.stocked;
    lines = refl;
    reservations = refl;
    held = λ s w.
        c.held s w
        ∙ sym (held-set_status s w id target env.now db.reservations db.lines o t)
        ∙ ap (λ x. held s w closed db.lines +ℤ x) (sym (sum_at-in_lock_order s w _));
  }

  IsHalfway-end :
      (now : Db)
      → IsConsistent db
      → IsHalfway [] now
      → IsConsistent (record now { reservations = set_status id target env.now now.reservations })
  unfolding sum_at
  IsHalfway-end now c p = record {
    stocked = record {
      checked = p.stocked.checked;
      keyed = p.stocked.keyed;
      unique = p.stocked.unique;
    };
    known =
        rw (p.lines, p.reservations)
          (All-IsKnown-set_status id target env.now db.reservations db.lines c.known);
    held = λ s w. rw (p.lines, p.reservations) (p.held s w ∙ sym (add-zero_ℤ _));
  }

  transition-IsConsistent :
      (decide : Option Status → Decision) (apply_line : Allocation → Db → Result Db)
      → ((o : Option Header) → decide (status_of o) ≡ proceed → is_open o ≡ true)
      → Returns env id apply_line
      → is_reserved target ≡ false
      → IsConsistent db
      → IsConsistent (transition env id target decide apply_line db).1
  transition-IsConsistent decide apply_line opens returns t c =
      transition_cases (λ r. IsConsistent r.1) env id target decide apply_line db (λ e. c)
        (λ st d. c)
        λ db' p applied. IsHalfway-end db' c (
          apply_lines_induction apply_line IsHalfway
            (λ a rest now next e h.
              let (m, done, delta) = returns a now next e in
              IsHalfway-step a rest m now next done delta h)
            (load_reservation_lines db id) db db' applied
            (IsHalfway-start (opens (find id db.reservations) p) t c))

-- From a consistent store Release leads to a consistent one, however it ends, and what it takes out of `reserved` is what the reservation held.
pub release-IsConsistent :
    (env : Env) (id reason : GoString) (db : Db)
    → IsConsistent db
    → IsConsistent (release env id reason db).1
unfolding release
release-IsConsistent env id reason db c =
    transition-IsConsistent env id released db decide_release (release_line env id reason)
      is_open_of_release (release_line-Returns env id reason) refl c

-- From a consistent store Commit leads to a consistent one, however it ends, and what it takes out of `reserved` is what the reservation held.
pub commit-IsConsistent :
    (env : Env) (id : GoString) (db : Db) → IsConsistent db → IsConsistent (commit env id db).1
unfolding commit
commit-IsConsistent env id db c =
    transition-IsConsistent env id committed db decide_commit (commit_line env id) is_open_of_commit
      (commit_line-Returns env id) refl c
