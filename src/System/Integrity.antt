-- ===== src/System/Integrity.antt =====
-- The schema and the invariant together, in every state that the service can reach.
use inventory_service.Store.Database.{Db, Env, Runtime}
use inventory_service.Consistency.Defs.{IsConsistent}
use inventory_service.Consistency.Schema.{IsIntact}
use inventory_service.Consistency.Intact.{reserve-IsIntact, release-IsIntact, commit-IsIntact}
use inventory_service.Consistency.Supply.{execute-IsIntact}
use inventory_service.System.Calls.{
  Call, reserves, releases, commits_sale, stocks, after, Reach, here, next,
}
use inventory_service.System.Invariants.{after-IsConsistent}

after-IsIntact :
    (rt : Runtime) (env : Env) (call : Call) (db : Db)
    → IsConsistent db
    → IsIntact db
    → IsIntact (after rt env call db)
unfolding after
after-IsIntact rt env (reserves req) db c i = reserve-IsIntact rt env req db c.stocked.keyed i
after-IsIntact rt env (releases id reason) db c i = release-IsIntact env id reason db i
after-IsIntact rt env (commits_sale id) db c i = commit-IsIntact env id db i
after-IsIntact rt env (stocks op cmd) db c i = execute-IsIntact op env cmd db i

-- From a state that is consistent and intact, every sequence of calls, whatever fails in between,
-- leads to one that is both. Consistent: every balance passes its CHECKs, balances have distinct
-- keys and movements distinct command ids, no line is without its reservation, and `reserved` is the
-- sum of what the open reservations hold. Intact: reservations have distinct ids and distinct order
-- ids, lines have distinct keys and positive quantities, and the warehouses of lines, balances and
-- movements exist.
pub Reach-IsIntact :
    {rt : Runtime} {start db : Db}
    → IsConsistent start
    → IsIntact start
    → Reach rt start db
    → IsConsistent db × IsIntact db
Reach-IsIntact c i here = (c, i)
Reach-IsIntact {rt} c i (next {db = now} r env call) =
    let (d, j) = Reach-IsIntact c i r in
    (after-IsConsistent rt env call now d, after-IsIntact rt env call now d j)
