-- ===== src/Stock/Runs.antt =====
-- How a command's transaction can end.
use inventory_service.Base.{
  ◌≡◌, refl, ap, sym, ◌∙◌, Bool, true, false, none, ◌∷◌, inl, inr, Option-cases, Bool-cases,
}
use inventory_service.Domain.Errors.{Error, Result, ok, err, Result-cases, command_conflict}
use inventory_service.Domain.Types.{StockCommand}
use inventory_service.Store.Rows.{Movement}
use inventory_service.Store.Movements.{find_command, check_movement, reference}
use inventory_service.Store.Database.{Db, Env, transact}
use inventory_service.Stock.Commands.{
  run, claim_and_apply, claim_command, matches, checked, Operation, receipt, adjustment,
  safety_change, execute, intended, write, guards, receive_stock, adjust_on_hand, set_safety_stock,
}

abbrev pub claimed : Movement → Db → Db
claimed m db = record db { movements = m ∷ db.movements }

-- Refused, replayed, or applied and committed.
pub run_cases {ℓ} :
    (P : Result Bool × Db → Type ℓ) (env : Env) (m : Movement) (apply : Db → Result Db) (db : Db)
    → ((e : Error) → P (err e, db))
    → P (ok false, db)
    → ((db' : Db)
        → check_movement m ≡ ok tt
        → find_command m.command_id db.movements ≡ none
        → apply (claimed m db) ≡ ok db'
        → P (ok true, db'))
    → P (run env m apply db)
unfolding run claim_and_apply claim_command transact
run_cases P env m apply db refused replayed applied = elim (Option-cases env.begin) [
  | inr (e, b) ↦ rw (b, run) (refused e)
  | inl b ↦
      rw (b, run)
        (elim (Result-cases (check_movement m)) [
          | inr (e, c) ↦ rw (c, run) (refused e)
          | inl (a, c) ↦
              rw (c, run)
                (elim (Option-cases (find_command m.command_id db.movements)) [
                  | inr (prev, f) ↦
                      rw (f, run)
                        (elim (Bool-cases (matches prev m)) [
                          | inl t ↦ rw (t, run) replayed
                          | inr t ↦ rw (t, run) (refused command_conflict)
                        ])
                  | inl f ↦
                      rw (f, run)
                        (elim (Result-cases (reference db.warehouses m.warehouse_id)) [
                          | inr (e, r) ↦ rw (r, run) (refused e)
                          | inl (a, r) ↦
                              rw (r, run)
                                (elim (Result-cases (apply (claimed m db))) [
                                  | inr (e, p) ↦ rw (p, run) (refused e)
                                  | inl (db', p) ↦
                                      rw (p, run)
                                        (elim (Option-cases env.commit) [
                                          | inr (e, k) ↦ rw (k, run) (refused e)
                                          | inl k ↦ rw (k, run) (applied db' c f p)
                                        ])
                                ])
                        ])
                ])
        ])
]

-- A command is refused before its transaction, or is its transaction.
pub checked_cases {ℓ} :
    (P : Result Bool × Db → Type ℓ) (guards : Result (Unit {0})) (db : Db) (r : Result Bool × Db)
    → ((e : Error) → P (err e, db))
    → (guards ≡ ok tt → P r)
    → P (checked guards db r)
checked_cases P (ok _) db r refused passed = passed refl
checked_cases P (err e) db r refused passed = refused e

pub id-intended :
    (op : Operation) (env : Env) (cmd : StockCommand)
    → (intended op env cmd).command_id ≡ cmd.command_id
id-intended receipt env cmd = refl
id-intended adjustment env cmd = refl
id-intended safety_change env cmd = refl

-- Every operation is its guards before the one transaction.
pub execute_lem :
    (op : Operation) (env : Env) (cmd : StockCommand) (db : Db)
    → execute op env cmd db
      ≡ checked (guards op cmd) db (run env (intended op env cmd) (write op env cmd) db)
unfolding execute receive_stock adjust_on_hand set_safety_stock
execute_lem receipt env cmd db = refl
execute_lem adjustment env cmd db = refl
execute_lem safety_change env cmd db = refl

-- Refused, replayed, or applied and committed.
pub execute_cases {ℓ} :
    (P : Result Bool × Db → Type ℓ) (op : Operation) (env : Env) (cmd : StockCommand) (db : Db)
    → ((e : Error) → P (err e, db))
    → P (ok false, db)
    → ((db' : Db)
        → guards op cmd ≡ ok tt
        → check_movement (intended op env cmd) ≡ ok tt
        → find_command cmd.command_id db.movements ≡ none
        → write op env cmd (claimed (intended op env cmd) db) ≡ ok db'
        → P (ok true, db'))
    → P (execute op env cmd db)
execute_cases P op env cmd db refused replayed applied = rw execute_lem (
    checked_cases P (guards op cmd) db _ refused λ g.
      run_cases P env (intended op env cmd) (write op env cmd) db refused replayed λ db' c f.
        applied db' g c (ap (λ i. find_command i db.movements) (sym (id-intended op env cmd)) ∙ f))
