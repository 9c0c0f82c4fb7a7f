-- ===== src/Web/Posts.antt =====
-- What the two commands of the HTTP API come to in the store.
use inventory_service.Base.{
  ℕ, GoString, pos, leb_ℤ, ◌≡◌, ◌≢◌, ◌<◌, refl, ◌⊎◌, inl, inr, Bool, true, false, Bool-cases,
  if◌then◌else◌, some, [], ◌∷◌, arith,
}
use inventory_service.Domain.Types.{StockCommand}
use inventory_service.Domain.Errors.{Error, ok, err, invalid_command, Result-cases}
use inventory_service.Domain.Validate.{validate}
use inventory_service.Store.Database.{Db, Env}
use inventory_service.Stock.Commands.{
  Operation, receipt, adjustment, safety_change, execute, guards,
}
use inventory_service.Stock.Runs.{execute_cases}
use inventory_service.Admin.Reads.{ListReads}
use inventory_service.Admin.Service.{run_command, admin_receive_stock, admin_adjust_on_hand}
use inventory_service.Telemetry.Signals as Telemetry
use inventory_service.Web.Wire.{
  EnvelopeCode, code_internal, code_validation, code_unauthorized, code_idempotency_conflict,
  code_stock_unavailable, code_not_found, Response, json, respond_error, ReceiptRequest,
  AdjustmentRequest, CommandReply, respond_admin_error,
}
use inventory_service.Web.Handlers.{
  AdminLogic, admin_service, receipt_command, adjustment_command, post_receipts, post_adjustments,
  command_response, respond_command,
}

-- A bound body of either command.
pub data Post : Type 0 where
  of_receipt : ReceiptRequest → Post
  of_adjustment : AdjustmentRequest → Post

-- The handler of a command.
abbrev pub post : AdminLogic → GoString → Post → Db → Response CommandReply × Db
post logic sub (of_receipt req) db = post_receipts logic sub (some req) db
post logic sub (of_adjustment req) db = post_adjustments logic sub (some req) db

abbrev pub operation_of : Post → Operation
operation_of (of_receipt req) = receipt
operation_of (of_adjustment req) = adjustment

abbrev pub command_of : GoString → Post → StockCommand
command_of sub (of_receipt req) = receipt_command sub req
command_of sub (of_adjustment req) = adjustment_command sub req

abbrev pub applied_reply : GoString → Bool → Response CommandReply
applied_reply id applied =
    json (if applied then 201 else 200) (record { command_id = id; applied = applied })

respond_admin_error-ne-json :
    (e : Error) (n : ℕ) (body : CommandReply) → ¬ (respond_admin_error e ≡ json n body)
unfolding respond_admin_error
respond_admin_error-ne-json Error.invalid_command n body h = cc
respond_admin_error-ne-json _ n body h = cc

-- A command in the store: refused with nothing changed, or executed.
execute_ends :
    (o : Operation) (env : Env) (cmd : StockCommand) (db : Db)
    → ((e : Error) × (execute o env cmd db ≡ (err e, db)))
      ⊎ ((applied : Bool) × (db' : Db) × (execute o env cmd db ≡ (ok applied, db')))
execute_ends o env cmd db =
    execute_cases
      (λ r.
        ((e : Error) × (r ≡ (err e, db)))
        ⊎ ((applied : Bool) × (db' : Db) × (r ≡ (ok applied, db'))))
      o env cmd db (λ e. inl (e, refl)) (inr (false, db, refl))
      (λ db' g c f applied. inr (true, db', refl))

module _ (op : Telemetry.Operation) (o : Operation) (env : Env) (cmd : StockCommand) (db : Db) where
  run_command_ends :
      ((e : Error) × ((run_command op cmd (execute o env) db).0 ≡ (err e, db)))
      ⊎ ((applied : Bool) × (db' : Db) × (execute o env cmd db ≡ (ok applied, db'))
          × ((run_command op cmd (execute o env) db).0 ≡ (ok applied, db')))
  unfolding run_command
  run_command_ends = elim (Result-cases (validate cmd)) [
    | inr (e, v) ↦ inl (invalid_command, rw (v, run_command))
    | inl (_, v) ↦ elim (execute_ends o env cmd db) [
      | inl (e, x) ↦ inl (e, rw (v, run_command) x)
      | inr (applied, db', x) ↦ inr (applied, db', x, rw (v, run_command) x)
    ]
  ]

  run_command_of_guards :
      guards o cmd ≡ ok tt → (run_command op cmd (execute o env) db).0 ≡ execute o env cmd db
  unfolding run_command
  run_command_of_guards g = elim (Result-cases (validate cmd)) [
    | inr (e, v) ↦ absurd (guards_of_invalid o e v g)
    | inl (_, v) ↦ rw (v, run_command)
  ]
    where
      guards_of_invalid :
          (o : Operation) (e : Error) → validate cmd ≡ err e → ¬ (guards o cmd ≡ ok tt)
      guards_of_invalid receipt e v g = ground arith
      guards_of_invalid adjustment e v g = ground arith
      guards_of_invalid safety_change e v g = ground arith

admin_refusal :
    (e : Error)
    → (n : ℕ) × (code : EnvelopeCode) × (◌≡◌ {A = Response CommandReply}
        (respond_admin_error e)
        (respond_error n code))
      × (399 < n)
unfolding respond_admin_error
admin_refusal Error.invalid_command = (400, code_validation, refl, omega arith)
admin_refusal Error.command_conflict = (409, code_idempotency_conflict, refl, omega arith)
admin_refusal Error.insufficient_on_hand = (409, code_stock_unavailable, refl, omega arith)
admin_refusal Error.balance_not_found = (404, code_not_found, refl, omega arith)
admin_refusal _ = (500, code_internal, refl, omega arith)

-- A POST is refused and changes nothing, or is a command that the store has executed.
abbrev pub PostEnds : Env → ListReads → GoString → Post → Db → Type 0
PostEnds env reads sub p db =
    ((n : ℕ) × (code : EnvelopeCode) × (post (admin_service env reads) sub p db
        ≡ (respond_error n code, db))
      × (399 < n))
    ⊎ ((applied : Bool) × (db' : Db) × (sub ≢ [])
        × (execute (operation_of p) env (command_of sub p) db ≡ (ok applied, db'))
        × (post (admin_service env reads) sub p db
            ≡ (applied_reply (command_of sub p).command_id applied, db')))

pub post_ends :
    (env : Env) (reads : ListReads) (sub : GoString) (p : Post) (db : Db)
    → PostEnds env reads sub p db
unfolding post_receipts post_adjustments admin_receive_stock admin_adjust_on_hand execute
    respond_command
post_ends env reads [] (of_receipt req) db = inl (401, code_unauthorized, refl, omega arith)
post_ends env reads [] (of_adjustment req) db = inl (401, code_unauthorized, refl, omega arith)
post_ends env reads (c ∷ cs) (of_receipt req) db = elim (Bool-cases (leb_ℤ req.quantity (pos 0))) [
  | inl t ↦ inl (400, code_validation, rw t, omega arith)
  | inr t ↦
      elim (run_command_ends Telemetry.op_receive_stock receipt env (receipt_command (c ∷ cs) req)
        db) [
          | inl (e, r) ↦ let (n, code, x, big) = admin_refusal e in inl (n, code, rw (t, r, x), big)
          | inr (applied, db', x, r) ↦ inr (applied, db', (λ h. cc), x, rw (t, r))
        ]
]
post_ends env reads (c ∷ cs) (of_adjustment req) db =
    elim (run_command_ends Telemetry.op_adjust_on_hand adjustment env
      (adjustment_command (c ∷ cs) req) db) [
        | inl (e, r) ↦ let (n, code, x, big) = admin_refusal e in inl (n, code, rw (r, x), big)
        | inr (applied, db', x, r) ↦ inr (applied, db', (λ h. cc), x, rw r)
      ]

-- A command that passes the checks of the store is answered by what the store makes of it.
pub post_of_guards :
    (env : Env) (reads : ListReads) (sub : GoString) (p : Post) (db : Db)
    → sub ≢ []
    → guards (operation_of p) (command_of sub p) ≡ ok tt
    → post (admin_service env reads) sub p db ≡ (
        let r = execute (operation_of p) env (command_of sub p) db in
        (command_response (command_of sub p).command_id r.0, r.1))
unfolding post_receipts post_adjustments admin_receive_stock admin_adjust_on_hand execute
post_of_guards env reads [] p db s g = absurd (s refl)
post_of_guards env reads (c ∷ cs) (of_receipt req) db s g =
    elim (Bool-cases (leb_ℤ req.quantity (pos 0))) [
      | inl t ↦ absurd (ground arith)
      | inr t ↦ rw (
        t,
        run_command_of_guards Telemetry.op_receive_stock receipt env (receipt_command (c ∷ cs) req)
            db g,
      )
    ]
post_of_guards env reads (c ∷ cs) (of_adjustment req) db s g = rw (
    run_command_of_guards Telemetry.op_adjust_on_hand adjustment env
      (adjustment_command (c ∷ cs) req) db g)
