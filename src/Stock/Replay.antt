-- ===== src/Stock/Replay.antt =====
-- A command_id is good for one application: retries, and other commands under the same id.
use inventory_service.Base.{
  Bool-cases, ℤ, pos, GoString, List, ◌≡◌, refl, sym, ap, ◌∙◌, Bool, true, false, none, some, arith,
  inl, inr, if◌then◌else◌, ◌∷◌,
}
use inventory_service.Domain.Types.{StockCommand}
use inventory_service.Domain.Errors.{Result, ok, err, command_conflict}
use inventory_service.Store.Rows.{Movement}
use inventory_service.Store.Movements.{find_command, check_movement}
use inventory_service.Store.Database.{Db, Env, transact}
use inventory_service.Stock.Commands.{
  Operation, receipt, adjustment, safety_change, execute, intended, write, guards, run,
  claim_and_apply, claim_command, matches, same_type, checked,
}
use inventory_service.Stock.Runs.{execute_lem, execute_cases, id-intended}
use inventory_service.Stock.Effects.{upsert-eq-ok, apply_adjust-eq-ok, apply_safety_stock-eq-ok}

-- The writes leave the ledger alone.
write-movements :
    (op : Operation) (env : Env) (cmd : StockCommand) (db db' : Db)
    → write op env cmd db ≡ ok db'
    → db'.movements ≡ db.movements
write-movements receipt env cmd db db' h = elim (upsert-eq-ok env cmd db db' h) [
  | inl (_, _, e) ↦ rw e
  | inr (_, _, _, _, e) ↦ rw e
]
write-movements adjustment env cmd db db' h =
    let (_, _, _, _, e) = apply_adjust-eq-ok env cmd db db' h in rw e
write-movements safety_change env cmd db db' h =
    let (_, _, _, _, e) = apply_safety_stock-eq-ok env cmd db db' h in rw e

find_command-head :
    (c : GoString) (m : Movement) (ms : List Movement)
    → m.command_id ≡ c
    → find_command c (m ∷ ms) ≡ some m
unfolding find_command
find_command-head c m ms e = ground arith

-- What a command that has committed has shown.
pub record Committed (op : Operation) (env : Env) (cmd : StockCommand) (db' : Db) : Type 0 where
  pub guarded : guards op cmd ≡ ok tt
  pub storable : check_movement (intended op env cmd) ≡ ok tt
  pub stored : find_command cmd.command_id db'.movements ≡ some (intended op env cmd)

pub Committed-execute :
    (op : Operation) (env : Env) (cmd : StockCommand) (db db' : Db)
    → execute op env cmd db ≡ (ok true, db')
    → Committed op env cmd db'
Committed-execute op env cmd db db' =
    execute_cases (λ r. r ≡ (ok true, db') → Committed op env cmd db') op env cmd db (λ e h. cc)
      (λ h. cc)
      λ db1 g c f applied h. record {
        guarded = g;
        storable = c;
        stored =
            rw (← ap (λ (r : Result Bool × Db). r.1) h, write-movements op env cmd _ db1 applied)
              (find_command-head cmd.command_id (intended op env cmd) db.movements
                (id-intended op env cmd));
      }

matches-retry :
    (op : Operation) (env env' : Env) (cmd : StockCommand)
    → matches (intended op env cmd) (intended op env' cmd) ≡ true
unfolding matches same_type
matches-retry receipt env env' cmd = ground arith
matches-retry adjustment env env' cmd = ground arith
matches-retry safety_change env env' cmd = ground arith

check_movement-retry :
    (op : Operation) (env env' : Env) (cmd : StockCommand)
    → check_movement (intended op env cmd) ≡ check_movement (intended op env' cmd)
unfolding check_movement
check_movement-retry receipt env env' cmd = refl
check_movement-retry adjustment env env' cmd = refl
check_movement-retry safety_change env env' cmd = refl

-- Whatever command comes under a stored command_id and can begin, its outcome is decided by the
-- comparison with the stored movement, and it changes nothing.
run_taken :
    (env : Env) (m prev : Movement) (apply : Db → Result Db) (db : Db)
    → env.begin ≡ none
    → check_movement m ≡ ok tt
    → find_command m.command_id db.movements ≡ some prev
    → run env m apply db ≡ (if matches prev m then ok false else err command_conflict, db)
unfolding run claim_and_apply claim_command transact
run_taken env m prev apply db b c f = ground arith

-- Every command that comes after a committed one under its command_id, passes its own checks and can
-- begin, is decided by comparing the two movements, and changes nothing.
reuse :
    (op op' : Operation) (env env' : Env) (cmd cmd' : StockCommand) (db db' : Db)
    → execute op env cmd db ≡ (ok true, db')
    → cmd'.command_id ≡ cmd.command_id
    → guards op' cmd' ≡ ok tt
    → check_movement (intended op' env' cmd') ≡ ok tt
    → env'.begin ≡ none
    → execute op' env' cmd' db' ≡ (
      if matches (intended op env cmd) (intended op' env' cmd')
          then ok false
          else err command_conflict,
      db',
    )
reuse op op' env env' cmd cmd' db db' done same g c b =
    let prior = Committed-execute op env cmd db db' done in
    rw (execute_lem op' env' cmd' db', g, checked)
      (run_taken env' (intended op' env' cmd') (intended op env cmd) (write op' env' cmd') db' b c
        (rw (id-intended op' env' cmd', same) prior.stored))

-- A stock command that has committed is applied once: the same command sent again, at any time and
-- with a transaction that can begin, reports that it was not applied, with no error, and changes
-- nothing.
pub execute_retry :
    (op : Operation) (env env' : Env) (cmd : StockCommand) (db db' : Db)
    → execute op env cmd db ≡ (ok true, db')
    → env'.begin ≡ none
    → execute op env' cmd db' ≡ (ok false, db')
execute_retry op env env' cmd db db' done b =
    let prior = Committed-execute op env cmd db db' done in
    reuse op op env env' cmd cmd db db' done refl prior.guarded
      (sym (check_movement-retry op env env' cmd) ∙ prior.storable) b
    ∙ rw (matches-retry op env env' cmd)

-- The change of on_hand that an operation records.
abbrev pub delta : Operation → StockCommand → ℤ
delta receipt cmd = cmd.quantity
delta adjustment cmd = cmd.quantity
delta safety_change cmd = pos 0

-- Two commands ask for the same thing, as far as the ledger records what was asked.
pub record SameRequest (op op' : Operation) (cmd cmd' : StockCommand) : Type 0 where
  pub operation : op ≡ op'
  pub sku_id : cmd.sku_id ≡ cmd'.sku_id
  pub warehouse_id : cmd.warehouse_id ≡ cmd'.warehouse_id
  pub on_hand_delta : delta op cmd ≡ delta op' cmd'
  pub actor : cmd.actor ≡ cmd'.actor
  pub reason : cmd.reason ≡ cmd'.reason

module _ (env env' : Env) (cmd cmd' : StockCommand) where
  matches_sound :
      (op op' : Operation)
      → matches (intended op env cmd) (intended op' env' cmd') ≡ true
      → SameRequest op op' cmd cmd'
  unfolding matches same_type
  matches_sound receipt receipt h = ground arith
  matches_sound receipt adjustment h = ground arith
  matches_sound receipt safety_change h = ground arith
  matches_sound adjustment receipt h = ground arith
  matches_sound adjustment adjustment h = ground arith
  matches_sound adjustment safety_change h = ground arith
  matches_sound safety_change receipt h = ground arith
  matches_sound safety_change adjustment h = ground arith
  matches_sound safety_change safety_change h = ground arith

  matches_complete :
      (op op' : Operation)
      → SameRequest op op' cmd cmd'
      → matches (intended op env cmd) (intended op' env' cmd') ≡ true
  unfolding matches same_type
  matches_complete receipt receipt h = ground arith
  matches_complete adjustment adjustment h = ground arith
  matches_complete safety_change safety_change h = ground arith
  matches_complete receipt _ h = absurd (ground (arith, h.operation))
  matches_complete adjustment _ h = absurd (ground (arith, h.operation))
  matches_complete safety_change _ h = absurd (ground (arith, h.operation))

-- A command that comes under a committed command_id, passes its own checks and can begin changes
-- nothing. It is reported as not applied, with no error, exactly when it asks for what the ledger
-- records of the first one; any other is refused with ErrCommandConflict.
pub execute_reused :
    (op op' : Operation) (env env' : Env) (cmd cmd' : StockCommand) (db db' : Db)
    → execute op env cmd db ≡ (ok true, db')
    → cmd'.command_id ≡ cmd.command_id
    → guards op' cmd' ≡ ok tt
    → check_movement (intended op' env' cmd') ≡ ok tt
    → env'.begin ≡ none
    → (SameRequest op op' cmd cmd' → execute op' env' cmd' db' ≡ (ok false, db'))
      × (¬ SameRequest op op' cmd cmd' → execute op' env' cmd' db' ≡ (err command_conflict, db'))
execute_reused op op' env env' cmd cmd' db db' done same g c b =
    let decided = reuse op op' env env' cmd cmd' db db' done same g c b in
    (
      (λ h. decided ∙ rw (matches_complete env env' cmd cmd' op op' h)),
      (λ h. elim (Bool-cases (matches (intended op env cmd) (intended op' env' cmd'))) [
        | inl t ↦ absurd (h (matches_sound env env' cmd cmd' op op' t))
        | inr f ↦ decided ∙ rw f
      ]),
    )
