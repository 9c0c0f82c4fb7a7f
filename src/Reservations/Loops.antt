-- ===== src/Reservations/Loops.antt =====
-- Invariants of the loops of Reserve, Release and Commit, over what is left to do.
use inventory_service.Base.{
  GoString, pos, ◌≤ℤ◌, ◌≡◌, ◌≢◌, subst, none, List, [], ◌∷◌, All, arith, inl, inr, Option-cases,
}
use inventory_service.Domain.Types.{Allocation}
use inventory_service.Domain.Errors.{Result, ok, Result-cases}
use inventory_service.Store.Rows.{Movement}
use inventory_service.Store.Balances.{find, find-replace-ne-none}
use inventory_service.Store.Database.{Db, Env}
use inventory_service.Reservations.Reserve.{apply_reserve, reserve_line}
use inventory_service.Reservations.Transition.{apply_lines}
use inventory_service.Reservations.Steps.{LineStep}
use inventory_service.Reservations.Lines.{
  ReserveStep, reserve_line-ReserveStep, reserve_line-positive,
}

-- An allocation of something has a balance row.
abbrev pub IsBacked : Db → Allocation → Type 0
IsBacked db a = ¬ (a.quantity ≤ℤ pos 0) → find a.sku_id a.warehouse_id db.balances ≢ none

LineStep-IsBacked :
    (a b : Allocation) (m : Movement) (db db' : Db)
    → LineStep a m db db'
    → IsBacked db b
    → IsBacked db' b
LineStep-IsBacked a b m db db' step h p gone = h p (
    find-replace-ne-none a.sku_id a.warehouse_id b.sku_id b.warehouse_id step.after db.balances
      step.key (rw (← step.balances) gone))

LineStep-All-IsBacked :
    (a : Allocation) (m : Movement) (db db' : Db) (rest : List Allocation)
    → LineStep a m db db'
    → All (IsBacked db) rest
    → All (IsBacked db') rest
LineStep-All-IsBacked a m db db' [] step h = tt
LineStep-All-IsBacked a m db db' (b ∷ rest) step h =
    (LineStep-IsBacked a b m db db' step h.0, LineStep-All-IsBacked a m db db' rest step h.1)

-- An invariant of applyReserve.
pub apply_reserve_induction {ℓ} :
    (env : Env) (id : GoString) (P : List Allocation → Db → Type ℓ)
    → ((a : Allocation) (rest : List Allocation) (db db' : Db)
        → ReserveStep env id a db db'
        → P (a ∷ rest) db
        → P rest db')
    → (todo : List Allocation) (db db' : Db) → All (IsBacked db) todo
    → apply_reserve env id todo db ≡ ok db'
    → P todo db
    → P [] db'
unfolding apply_reserve
apply_reserve_induction env id P keep [] db db' backed h p = subst (P []) (ground arith) p
apply_reserve_induction env id P keep (a ∷ rest) db db' backed h p =
    elim (Result-cases (reserve_line env id a db)) [
      | inr (x, e) ↦ absurd (ground arith)
      | inl (db1, e) ↦ elim (Option-cases (find a.sku_id a.warehouse_id db.balances)) [
        | inl gone ↦ absurd (backed.0 (reserve_line-positive env id a db db1 e) gone)
        | inr (b, f) ↦
            let done = reserve_line-ReserveStep env id a db db1 b f e in
            apply_reserve_induction env id P keep rest db1 db'
              (LineStep-All-IsBacked a _ db db1 rest done.step backed.1) (ground arith)
              (keep a rest db db1 done p)
      ]
    ]

-- An invariant of the loop of `transition`.
pub apply_lines_induction {ℓ} :
    (apply_line : Allocation → Db → Result Db) (P : List Allocation → Db → Type ℓ)
    → ((a : Allocation) (rest : List Allocation) (db db' : Db)
        → apply_line a db ≡ ok db'
        → P (a ∷ rest) db
        → P rest db')
    → (todo : List Allocation) (db db' : Db) → apply_lines apply_line todo db ≡ ok db'
    → P todo db
    → P [] db'
unfolding apply_lines
apply_lines_induction apply_line P keep [] db db' h p = subst (P []) (ground arith) p
apply_lines_induction apply_line P keep (a ∷ rest) db db' h p =
    elim (Result-cases (apply_line a db)) [
      | inr (x, e) ↦ absurd (ground arith)
      | inl (db1, e) ↦
          apply_lines_induction apply_line P keep rest db1 db' (ground arith)
            (keep a rest db db1 e p)
    ]
