-- ===== src/Lifecycle/Effects.antt =====
-- What Release and Commit do to each table when they find a reservation that is RESERVED.
use inventory_service.Base.{
  GoString, ℤ, pos, ◌+ℤ◌, ◌-ℤ◌, negate, ◌≡◌, refl, ap, sym, ◌∙◌, Option, some, List, [], ◌∷◌, arith,
  int_laws, pos_part, neg_part, add-zero_ℤ,
}
use inventory_service.Domain.Types.{Allocation, Status, reserved, released, committed}
use inventory_service.Domain.Errors.{Result, ok, err}
use inventory_service.Store.Rows.{Movement}
use inventory_service.Store.Reservations.{find, set_status}
use inventory_service.Store.Database.{Db, Env}
use inventory_service.Store.Ledger.{
  on_hand_at, reserved_at, on_hand_at-replace, reserved_at-replace, moved, moved-negate,
}
use inventory_service.Reservations.Reserve.{reservation_movement, load_reservation_lines}
use inventory_service.Reservations.Transition.{
  Decision, proceed, transition, decide_release, decide_commit, status_of, release_line,
  commit_line, release, commit,
}
use inventory_service.Reservations.Lines.{
  ReturnStep, release_movement, commit_movement, release_line-ReturnStep, commit_line-ReturnStep,
}
use inventory_service.Reservations.Held.{sum_at}
use inventory_service.Reservations.Loops.{apply_lines_induction}
use inventory_service.Reservations.Cases.{transition_cases}

-- A movement for each line, the last line's on top.
abbrev pub written : (Allocation → Movement) → List Allocation → List Movement → List Movement
written movement [] ms = ms
written movement (a ∷ rest) ms = written movement rest (movement a ∷ ms)

-- How much of on_hand the lines take at each SKU and warehouse.
abbrev pub Taken : Type 0
Taken = GoString → ℤ → List Allocation → ℤ

-- A reservation has ended: its status is the target and its lines stay, each line has its movement,
-- and each balance has given up the sum of the lines for it.
pub record IsClosed (env : Env) (id : GoString) (target : Status) (movement : Allocation → Movement)
    (taken : Taken) (db now : Db) : Type 0 where
  pub reservations : now.reservations ≡ set_status id target env.now db.reservations
  pub lines : now.lines ≡ db.lines
  pub movements : now.movements ≡ written movement (load_reservation_lines db id) db.movements
  pub on_hand :
      (s : GoString) (w : ℤ)
      → on_hand_at s w now.balances +ℤ taken s w (load_reservation_lines db id)
        ≡ on_hand_at s w db.balances
  pub reserved :
      (s : GoString) (w : ℤ)
      → reserved_at s w now.balances +ℤ sum_at s w (load_reservation_lines db id)
        ≡ reserved_at s w db.balances

-- A call on a RESERVED reservation ends it, or fails and changes nothing.
abbrev pub Closes : (Status → Db → Type 0) → Db → Result Status × Db → Type 0
Closes P db (ok st, now) = P st now
Closes P db (err e, now) = now ≡ db

sum_at-nil : (s : GoString) (w : ℤ) → sum_at s w [] ≡ pos 0
unfolding sum_at
sum_at-nil s w = refl

sum_at-cons :
    (s : GoString) (w : ℤ) (a : Allocation) (rest : List Allocation)
    → sum_at s w (a ∷ rest) ≡ moved s w a.sku_id a.warehouse_id a.quantity +ℤ sum_at s w rest
unfolding sum_at
sum_at-cons s w a rest = refl

paid :
    (now next before all q rest left : ℤ)
    → next ≡ now +ℤ negate q
    → left ≡ q +ℤ rest
    → now +ℤ all ≡ before +ℤ left
    → next +ℤ all ≡ before +ℤ rest
paid now next before all q rest left e f g =
    let k = g ∙ ap (λ t. before +ℤ t) f in rw e (omega (int_laws, ap pos_part k, ap neg_part k))

module _ (env : Env) (id : GoString) (target : Status) (movement : Allocation → Movement)
    (taken : Taken) (db : Db) (apply_line : Allocation → Db → Result Db) (out : Allocation → ℤ)
    (rounds : (a : Allocation) (now next : Db)
      → apply_line a now ≡ ok next
      → ReturnStep env id a (movement a) now next)
    (on_hand_delta : (a : Allocation) → (movement a).on_hand_delta ≡ negate (out a))
    (reserved_delta : (a : Allocation) → (movement a).reserved_delta ≡ negate a.quantity)
    (taken_none : (s : GoString) (w : ℤ) → taken s w [] ≡ pos 0)
    (taken_more : (s : GoString) (w : ℤ) (a : Allocation) (rest : List Allocation)
      → taken s w (a ∷ rest) ≡ moved s w a.sku_id a.warehouse_id (out a) +ℤ taken s w rest) where
  abbrev all : List Allocation
  all = load_reservation_lines db id

  record IsUnderWay (todo : List Allocation) (now : Db) : Type 0 where
    reservations : now.reservations ≡ db.reservations
    lines : now.lines ≡ db.lines
    movements : written movement todo now.movements ≡ written movement all db.movements
    on_hand :
        (s : GoString) (w : ℤ)
        → on_hand_at s w now.balances +ℤ taken s w all
          ≡ on_hand_at s w db.balances +ℤ taken s w todo
    reserved :
        (s : GoString) (w : ℤ)
        → reserved_at s w now.balances +ℤ sum_at s w all
          ≡ reserved_at s w db.balances +ℤ sum_at s w todo

  IsUnderWay-step :
      (a : Allocation) (rest : List Allocation) (now next : Db)
      → apply_line a now ≡ ok next
      → IsUnderWay (a ∷ rest) now
      → IsUnderWay rest next
  IsUnderWay-step a rest now next e p =
      let round = rounds a now next e in
      let step = round.step in
      record {
        reservations = step.reservations ∙ p.reservations;
        lines = round.lines ∙ p.lines;
        movements = ap (written movement rest) step.movements ∙ p.movements;
        on_hand = λ s w.
            paid (on_hand_at s w now.balances) (on_hand_at s w next.balances)
              (on_hand_at s w db.balances) (taken s w all)
              (moved s w a.sku_id a.warehouse_id (out a)) (taken s w rest) (taken s w (a ∷ rest))
              (ap (on_hand_at s w) step.balances
                ∙ on_hand_at-replace s w a.sku_id a.warehouse_id step.before step.after
                    (negate (out a)) now.balances step.found step.key
                    (step.on_hand ∙ ap (λ t. step.before.on_hand +ℤ t) (on_hand_delta a))
                ∙ ap (λ t. on_hand_at s w now.balances +ℤ t)
                    (moved-negate s w a.sku_id a.warehouse_id (out a)))
              (taken_more s w a rest) (p.on_hand s w);
        reserved = λ s w.
            paid (reserved_at s w now.balances) (reserved_at s w next.balances)
              (reserved_at s w db.balances) (sum_at s w all)
              (moved s w a.sku_id a.warehouse_id a.quantity) (sum_at s w rest)
              (sum_at s w (a ∷ rest))
              (ap (reserved_at s w) step.balances
                ∙ reserved_at-replace s w a.sku_id a.warehouse_id step.before step.after
                    (negate a.quantity) now.balances step.found step.key
                    (step.reserved ∙ ap (λ t. step.before.reserved +ℤ t) (reserved_delta a))
                ∙ ap (λ t. reserved_at s w now.balances +ℤ t)
                    (moved-negate s w a.sku_id a.warehouse_id a.quantity))
              (sum_at-cons s w a rest) (p.reserved s w);
      }

  IsClosed-of_end :
      (now : Db)
      → IsUnderWay [] now
      → IsClosed env id target movement taken db
          (record now { reservations = set_status id target env.now now.reservations })
  unfolding sum_at
  IsClosed-of_end now p = record {
    reservations = ap (set_status id target env.now) p.reservations;
    lines = p.lines;
    movements = p.movements;
    on_hand = λ s w.
        p.on_hand s w
        ∙ ap (λ t. on_hand_at s w db.balances +ℤ t) (taken_none s w)
        ∙ sym (add-zero_ℤ _);
    reserved = λ s w. p.reserved s w ∙ sym (add-zero_ℤ _);
  }

  transition-Closes :
      (decide : Option Status → Decision)
      → decide (status_of (find id db.reservations)) ≡ proceed
      → Closes
          (λ st now. (st ≡ target) × IsClosed env id target movement taken db now)
          db
          (transition env id target decide apply_line db)
  transition-Closes decide pending =
      transition_cases
        (Closes (λ st now. (st ≡ target) × IsClosed env id target movement taken db now) db) env id
        target decide apply_line db (λ e. refl) (λ st d. absurd (ground arith))
        λ now _ applied. (
          refl,
          IsClosed-of_end now (
              apply_lines_induction apply_line IsUnderWay IsUnderWay-step all db now applied
                (record {
                  reservations = refl;
                  lines = refl;
                  movements = refl;
                  on_hand = λ s w. refl;
                  reserved = λ s w. refl;
                })),
        )

-- If a COMMIT that fails is rolled back, Release of a reservation that is RESERVED fails and changes
-- nothing, or says RELEASED, and then
-- the reservation is RELEASED as of now; no line, and no on_hand of a balance has changed; `reserved`
-- of every balance has gone down by the sum of the reservation's lines for it; and the ledger has
-- one new RELEASE movement for each line, in the order in which they are locked, and no other.
pub release_exact :
    (env : Env) (id reason : GoString) (db : Db)
    → status_of (find id db.reservations) ≡ some reserved
    → Closes
        (λ st now.
          (st ≡ released)
          × IsClosed env id released
              (λ a. release_movement env id a reason)
              (λ s w todo. pos 0)
              db
              now)
        db
        (release env id reason db)
unfolding release decide_release reservation_movement ◌-ℤ◌
release_exact env id reason db pending =
    transition-Closes env id released (λ a. release_movement env id a reason) (λ s w todo. pos 0) db
      (release_line env id reason) (λ a. pos 0)
      (λ a now next e. release_line-ReturnStep env id a reason now next e) (λ a. refl) (λ a. refl)
      (λ s w. refl) (λ s w a rest. grind int_laws) decide_release (ap decide_release pending)

-- If a COMMIT that fails is rolled back, Commit of a reservation that is RESERVED fails and changes
-- nothing, or says COMMITTED, and then
-- the reservation is COMMITTED as of now; no line has changed; on_hand and `reserved` of every
-- balance have gone down by the sum of the reservation's lines for it; and the ledger has one new
-- SALE_COMMITTED movement for each line, in the order in which they are locked, and no other.
pub commit_exact :
    (env : Env) (id : GoString) (db : Db)
    → status_of (find id db.reservations) ≡ some reserved
    → Closes
        (λ st now.
          (st ≡ committed)
          × IsClosed env id committed (commit_movement env id) (λ s w. sum_at s w) db now)
        db
        (commit env id db)
unfolding commit decide_commit reservation_movement
commit_exact env id db pending =
    transition-Closes env id committed (commit_movement env id) (λ s w. sum_at s w) db
      (commit_line env id) (λ a. a.quantity)
      (λ a now next e. commit_line-ReturnStep env id a now next e) (λ a. refl) (λ a. refl)
      (λ s w. sum_at-nil s w) (λ s w a rest. sum_at-cons s w a rest) decide_commit
      (ap decide_commit pending)
