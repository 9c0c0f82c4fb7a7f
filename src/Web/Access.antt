-- ===== src/Web/Access.antt =====
-- Which requests to the HTTP API can change the store.
use inventory_service.Base.{GoString, ◌≡◌, ◌≢◌, ◌⊎◌, true, some, []}
use inventory_service.Domain.Errors.{ok}
use inventory_service.Store.Database.{Db, Env}
use inventory_service.Stock.Commands.{execute}
use inventory_service.Admin.Reads.{ListReads}
use inventory_service.Web.Wire.{ReceiptRequest, AdjustmentRequest}
use inventory_service.Web.Serve.{Request, receipts, adjustments, Answer, command}
use inventory_service.Web.Posts.{
  Post, of_receipt, of_adjustment, operation_of, command_of, applied_reply,
}

-- The body of a request that is a command, and its subject.
pub data IsPost (sub : GoString) : Request → Post → Type 0 where
  receipt_body : (r : ReceiptRequest) → IsPost sub (receipts sub (some r)) (of_receipt r)
  adjustment_body :
      (r : AdjustmentRequest) → IsPost sub (adjustments sub (some r)) (of_adjustment r)

-- A request has changed the store: a command, by a subject, that the store has executed, and the
-- answer reports it.
pub record HasApplied (env : Env) (req : Request) (db : Db) (r : Answer × Db) : Type 0 where
  pub sub : GoString
  pub body : Post
  pub posted : IsPost sub req body
  pub named : sub ≢ []
  pub executed : execute (operation_of body) env (command_of sub body) db ≡ (ok true, r.1)
  pub told : r.0 ≡ command (applied_reply (command_of sub body).command_id true)

module _ (env : Env) (reads : ListReads) (db : Db) where
  abbrev IsSafe : Request → Answer × Db → Type 0
  IsSafe req r = (r.1 ≡ db) ⊎ HasApplied env req db r
