-- ===== src/System/Invariants.antt =====
-- What holds in every state that the service can reach.
use inventory_service.Base.{
  GoString, ℤ, pos, ◌≤ℤ◌, ◌≡◌, refl, ◌∙◌, List, arith, inl, inr, Option-cases, add-zero_ℤ,
  zero-add_ℤ,
}
use inventory_service.Store.Rows.{Warehouse}
use inventory_service.Store.Balances.{find}
use inventory_service.Store.Movements.{ledger_on_hand, ledger_reserved}
use inventory_service.Store.Database.{Db, Env, Runtime}
use inventory_service.Store.Valid.{IsStocked, find-IsChecked}
use inventory_service.Store.Ledger.{
  IsLedgered, IsLedgered-refl, IsLedgered-trans, on_hand_at, reserved_at,
}
use inventory_service.Stock.Ledger.{execute-IsLedgered}
use inventory_service.Reservations.Held.{held}
use inventory_service.Reservations.Ledger.{
  reserve-IsLedgered, release-IsLedgered, commit-IsLedgered,
}
use inventory_service.Consistency.Defs.{IsConsistent}
use inventory_service.Consistency.Reserving.{reserve-IsConsistent}
use inventory_service.Consistency.Closing.{release-IsConsistent, commit-IsConsistent}
use inventory_service.Consistency.Stocking.{execute-IsConsistent}
use inventory_service.System.Calls.{
  Call, reserves, releases, commits_sale, stocks, after, Reach, here, next, migrated,
}

pub after-IsConsistent :
    (rt : Runtime) (env : Env) (call : Call) (db : Db)
    → IsConsistent db
    → IsConsistent (after rt env call db)
unfolding after
after-IsConsistent rt env (reserves req) db c = reserve-IsConsistent rt env req db c
after-IsConsistent rt env (releases id reason) db c = release-IsConsistent env id reason db c
after-IsConsistent rt env (commits_sale id) db c = commit-IsConsistent env id db c
after-IsConsistent rt env (stocks op cmd) db c = execute-IsConsistent op env cmd db c

after-IsLedgered :
    (rt : Runtime) (env : Env) (call : Call) (db : Db) (s : GoString) (w : ℤ)
    → IsConsistent db
    → IsLedgered s w db (after rt env call db)
unfolding after
after-IsLedgered rt env (reserves req) db s w c =
    reserve-IsLedgered rt env req db s w c.stocked.keyed
after-IsLedgered rt env (releases id reason) db s w c = release-IsLedgered env id reason db s w
after-IsLedgered rt env (commits_sale id) db s w c = commit-IsLedgered env id db s w
after-IsLedgered rt env (stocks op cmd) db s w c = execute-IsLedgered op env cmd db s w

-- From a consistent state every sequence of calls leads to a consistent state.
pub Reach-IsConsistent :
    {rt : Runtime} {start db : Db} → IsConsistent start → Reach rt start db → IsConsistent db
Reach-IsConsistent c here = c
Reach-IsConsistent {rt} c (next {db = now} r env call) =
    after-IsConsistent rt env call now (Reach-IsConsistent c r)

pub Reach-IsLedgered :
    {rt : Runtime} {start db : Db} (s : GoString) (w : ℤ)
    → IsConsistent start
    → Reach rt start db
    → IsLedgered s w start db
Reach-IsLedgered {start = start} s w c here = IsLedgered-refl s w start
Reach-IsLedgered {rt} {start} s w c (next {db = now} r env call) =
    IsLedgered-trans s w start now _ (Reach-IsLedgered s w c r)
      (after-IsLedgered rt env call now s w (Reach-IsConsistent c r))

pub migrated-IsConsistent : (ws : List Warehouse) → IsConsistent (migrated ws)
unfolding find held
migrated-IsConsistent ws = record {
  stocked = record { checked = tt; keyed = tt; unique = tt };
  known = tt;
  held = λ s w. refl;
}

reserved-le-on_hand :
    (s : GoString) (w : ℤ) (db : Db)
    → IsStocked db
    → (pos 0 ≤ℤ reserved_at s w db.balances)
      × (reserved_at s w db.balances ≤ℤ on_hand_at s w db.balances)
reserved-le-on_hand s w db h = elim (Option-cases (find s w db.balances)) [
  | inl f ↦ rw f (omega arith, omega arith)
  | inr (b, f) ↦
      let fine = find-IsChecked s w {b = b} db.balances h.checked f in rw f (fine.1, fine.3)
]

-- No oversell. In every state that calls can lead to from the migrated store, the open reservations
-- of a SKU in a warehouse together hold no more of it than is on hand there, and no less than
-- nothing.
pub no_oversell :
    {rt : Runtime} {ws : List Warehouse} {db : Db} (s : GoString) (w : ℤ)
    → Reach rt (migrated ws) db
    → (pos 0 ≤ℤ held s w db.reservations db.lines)
      × (held s w db.reservations db.lines ≤ℤ on_hand_at s w db.balances)
no_oversell {ws = ws} {db} s w r =
    let c = Reach-IsConsistent (migrated-IsConsistent ws) r in
    rw (← c.held s w) (reserved-le-on_hand s w db c.stocked)

-- The ledger reconciles. In every state that calls can lead to from the migrated store, on_hand is
-- the sum of the ledger's on_hand deltas, and reserved the sum of its reserved deltas.
pub ledger_reconciles :
    {rt : Runtime} {ws : List Warehouse} {db : Db} (s : GoString) (w : ℤ)
    → Reach rt (migrated ws) db
    → (on_hand_at s w db.balances ≡ ledger_on_hand s w db.movements)
      × (reserved_at s w db.balances ≡ ledger_reserved s w db.movements)
unfolding find ledger_on_hand ledger_reserved
ledger_reconciles {ws = ws} s w r =
    let l = Reach-IsLedgered s w (migrated-IsConsistent ws) r in
    (add-zero_ℤ _ ∙ l.on_hand ∙ zero-add_ℤ _, add-zero_ℤ _ ∙ l.reserved ∙ zero-add_ℤ _)
