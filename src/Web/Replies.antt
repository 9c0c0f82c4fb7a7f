-- ===== src/Web/Replies.antt =====
-- What a client of the HTTP API can conclude from the status of a reply.
use inventory_service.Base.{
  ℕ, GoString, ◌+ℤ◌, leb_ℤ, if◌then◌else◌, Bool-cases, ◌≡◌, ◌≢◌, refl, ap, sym, ◌∙◌, inl, inr, true,
  Bool, false, Option, none, some, [], arith,
}
use inventory_service.Domain.Errors.{Result, ok, err, pg, foreign_key_violation}
use inventory_service.Domain.Types.{StockCommand}
use inventory_service.Store.Rows.{Movement, Balance}
use inventory_service.Store.Balances.{find}
use inventory_service.Store.Movements.{check_movement, find_command, warehouse_exists}
use inventory_service.Store.Valid.{IsStocked}
use inventory_service.Store.Database.{Db, Env, transact}
use inventory_service.Stock.Commands.{
  receipt, adjustment, execute, guards, intended, run, claim_command, claim_and_apply, checked,
}
use inventory_service.Stock.Runs.{execute_lem}
use inventory_service.Stock.Adjust.{IsUnhindered, HasRoom, adjusted, adjust_on_hand_exact}
use inventory_service.Stock.Replay.{Committed-execute, execute_retry}
use inventory_service.Admin.Reads.{ListReads}
use inventory_service.Web.Wire.{
  EnvelopeCode, code_internal, code_not_found, code_stock_unavailable, AdjustmentRequest, Response,
  json, respond_error, CommandReply, respond_admin_error,
}
use inventory_service.Web.Handlers.{
  admin_service, command_response, respond_command, adjustment_command,
}
use inventory_service.Web.Posts.{
  Post, of_receipt, of_adjustment, post, operation_of, command_of, applied_reply, post_ends,
  post_of_guards,
}

json-ne-respond_error :
    (n m : ℕ) (code : EnvelopeCode) (body : CommandReply) (db db' : Db)
    → ¬ (◌≡◌ {A = Response CommandReply × Db} (respond_error n code, db) (json m body, db'))
json-ne-respond_error n m code body db db' h = cc

-- A POST that was answered as applied has been executed, by an authenticated subject.
execute_of_applied :
    (env : Env) (reads : ListReads) (sub : GoString) (p : Post) (db db' : Db)
    → post (admin_service env reads) sub p db
      ≡ (applied_reply (command_of sub p).command_id true, db')
    → (sub ≢ []) × (execute (operation_of p) env (command_of sub p) db ≡ (ok true, db'))
execute_of_applied env reads sub p db db' h = elim (post_ends env reads sub p db) [
  | inl (n, code, x, _) ↦ absurd (json-ne-respond_error _ _ _ _ _ _ (sym x ∙ h))
  | inr (false, db1, s, x, y) ↦ let e = sym y ∙ h in cc
  | inr (true, db1, s, x, y) ↦
      (s, x ∙ ap (λ d. (ok true, d)) (ap (λ (r : Response CommandReply × Db). r.1) (sym y ∙ h)))
]

-- A receipt or an adjustment that was answered with 201 is applied once: the same request by the
-- same subject, sent again at any time, when a transaction can begin, is answered with 200 under the
-- same command_id and `applied: false`, and changes nothing.
pub post_retry :
    (env env' : Env) (reads reads' : ListReads) (sub : GoString) (p : Post) (db db' : Db)
    → post (admin_service env reads) sub p db
      ≡ (applied_reply (command_of sub p).command_id true, db')
    → env'.begin ≡ none
    → post (admin_service env' reads') sub p db'
      ≡ (applied_reply (command_of sub p).command_id false, db')
unfolding respond_command
post_retry env env' reads reads' sub p db db' h b =
    let (s, x) = execute_of_applied env reads sub p db db' h in
    let prior = Committed-execute (operation_of p) env (command_of sub p) db db' x in
    post_of_guards env' reads' sub p db' s prior.guarded
    ∙ rw (execute_retry (operation_of p) env env' (command_of sub p) db db' x b)

run_unplaced :
    (env : Env) (m : Movement) (apply : Db → Result Db) (db : Db)
    → env.begin ≡ none
    → check_movement m ≡ ok tt
    → find_command m.command_id db.movements ≡ none
    → warehouse_exists m.warehouse_id db.warehouses ≡ false
    → run env m apply db ≡ (err (pg foreign_key_violation), db)
unfolding run claim_and_apply claim_command transact
run_unplaced env m apply db b c f w = ground arith

module _ (env : Env) (reads : ListReads) (sub : GoString) (db : Db) where
  execute_unplaced :
      (p : Post)
      → guards (operation_of p) (command_of sub p) ≡ ok tt
      → check_movement (intended (operation_of p) env (command_of sub p)) ≡ ok tt
      → find_command (command_of sub p).command_id db.movements ≡ none
      → warehouse_exists (command_of sub p).warehouse_id db.warehouses ≡ false
      → env.begin ≡ none
      → execute (operation_of p) env (command_of sub p) db ≡ (err (pg foreign_key_violation), db)
  execute_unplaced (of_receipt req) g c f w b =
      execute_lem receipt env (command_of sub (of_receipt req)) db
      ∙ rw (g, checked) (run_unplaced env _ _ db b c f w)
  execute_unplaced (of_adjustment req) g c f w b =
      execute_lem adjustment env (command_of sub (of_adjustment req)) db
      ∙ rw (g, checked) (run_unplaced env _ _ db b c f w)

-- A receipt or an adjustment that passes the checks of the store, under a new command_id, for a
-- warehouse that does not exist, is answered with 500 and INTERNAL, and changes nothing.
pub post_unknown_warehouse :
    (env : Env) (reads : ListReads) (sub : GoString) (p : Post) (db : Db)
    → sub ≢ []
    → guards (operation_of p) (command_of sub p) ≡ ok tt
    → check_movement (intended (operation_of p) env (command_of sub p)) ≡ ok tt
    → find_command (command_of sub p).command_id db.movements ≡ none
    → warehouse_exists (command_of sub p).warehouse_id db.warehouses ≡ false
    → env.begin ≡ none
    → post (admin_service env reads) sub p db ≡ (respond_error 500 code_internal, db)
unfolding respond_admin_error
post_unknown_warehouse env reads sub p db s g c f w b =
    post_of_guards env reads sub p db s g ∙ rw (execute_unplaced env reads sub db p g c f w b)

-- The status that answers an adjustment which nothing but its balance can hinder.
abbrev pub adjustment_reply : StockCommand → Option Balance → Response CommandReply
adjustment_reply cmd none = respond_error 404 code_not_found
adjustment_reply cmd (some b) =
    if leb_ℤ b.reserved (b.on_hand +ℤ cmd.quantity)
    then applied_reply cmd.command_id true
    else respond_error 409 code_stock_unavailable

adjusted-reply :
    (env : Env) (cmd : StockCommand) (db : Db) (o : Option Balance)
    → command_response cmd.command_id (adjusted env cmd db o).0 ≡ adjustment_reply cmd o
unfolding respond_admin_error respond_command
adjusted-reply env cmd db none = refl
adjusted-reply env cmd db (some b) =
    elim (Bool-cases (leb_ℤ b.reserved (b.on_hand +ℤ cmd.quantity))) [ inl t ↦ rw t | inr t ↦ rw t ]

-- In a store whose balances pass the CHECKs and have distinct keys, an adjustment by an
-- authenticated subject that nothing but the balance can hinder is answered with 201 if the balance still covers what is reserved, with
-- 409 and STOCK_UNAVAILABLE if it does not, and with 404 if there is no balance.
pub post_adjustment_exact :
    (env : Env) (reads : ListReads) (sub : GoString) (req : AdjustmentRequest) (db : Db)
    → sub ≢ []
    → IsStocked db
    → IsUnhindered env (adjustment_command sub req) db
    → HasRoom env (adjustment_command sub req) db
    → (post (admin_service env reads) sub (of_adjustment req) db).0
      ≡ adjustment_reply (adjustment_command sub req) (find req.sku_id req.warehouse_id db.balances)
unfolding execute
post_adjustment_exact env reads sub req db s stocked u room =
    let cmd = adjustment_command sub req in
    ap (λ (r : Response CommandReply × Db). r.0)
      (post_of_guards env reads sub (of_adjustment req) db s u.guarded)
    ∙ ap (λ (r : Result Bool × Db). command_response req.command_id r.0)
        (adjust_on_hand_exact env cmd db stocked u room)
    ∙ adjusted-reply env cmd db (find req.sku_id req.warehouse_id db.balances)
