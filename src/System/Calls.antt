-- ===== src/System/Calls.antt =====
-- The calls that change the database, and the states that they can lead to.
use inventory_service.Base.{GoString, List, []}
use inventory_service.Domain.Types.{ReservationRequest, StockCommand}
use inventory_service.Store.Rows.{Warehouse}
use inventory_service.Store.Database.{Db, Env, Runtime}
use inventory_service.Stock.Commands.{Operation, execute}
use inventory_service.Reservations.Reserve.{reserve}
use inventory_service.Reservations.Transition.{release, commit}

-- ReservationStore and StockCommander, without the reads.
pub data Call : Type 0 where
  reserves : ReservationRequest → Call
  releases : GoString → GoString → Call
  commits_sale : GoString → Call
  stocks : Operation → StockCommand → Call

-- The database after a call, whatever the call returned.
unfoldable pub after : Runtime → Env → Call → Db → Db
after rt env (reserves req) db = (reserve rt env req db).1
after rt env (releases id reason) db = (release env id reason db).1
after rt env (commits_sale id) db = (commit env id db).1
after rt env (stocks op cmd) db = (execute op env cmd db).1

-- Any calls, each in any circumstances.
pub data Reach (rt : Runtime) (start : Db) : Db → Type 0 where
  here : Reach rt start start
  next :
      {db : Db}
      → Reach rt start db
      → (env : Env) (call : Call) → Reach rt start (after rt env call db)

-- The store as the migrations leave it: warehouses, and no stock.
abbrev pub migrated : List Warehouse → Db
migrated ws = record {
  warehouses = ws;
  balances = [];
  reservations = [];
  lines = [];
  movements = [];
}
