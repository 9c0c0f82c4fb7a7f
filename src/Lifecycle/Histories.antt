-- ===== src/Lifecycle/Histories.antt =====
-- What later calls can do to a reservation.
use inventory_service.Base.{
  ℕ, GoString, text_eq, ◌≡◌, refl, ◌∙◌, false, Bool-cases, Option, none, some, List, [], ◌∷◌, keep,
  arith, ◌⊎◌, inl, inr,
}
use inventory_service.Domain.Types.{
  Allocation, Status, reserved, released, committed, ReservationRequest, StockCommand,
}
use inventory_service.Domain.Errors.{Result, ok}
use inventory_service.Store.Rows.{Header, ReservationLine}
use inventory_service.Store.Balances.{IsKeyed}
use inventory_service.Store.Reservations.{find, set_status}
use inventory_service.Store.Database.{Db, Env, Runtime}
use inventory_service.Stock.Commands.{Operation, execute, intended}
use inventory_service.Stock.Runs.{execute_cases, claimed}
use inventory_service.Reservations.Reserve.{reserve, load_reservation_lines}
use inventory_service.Reservations.Transition.{
  Decision, proceed, decide_release, decide_commit, release_line, commit_line, status_of,
  transition, release, commit,
}
use inventory_service.Reservations.Gate.{allocate_reservation-IsGated, IsBacked-allocations_in}
use inventory_service.Reservations.Cases
use inventory_service.Reservations.Cases.{reserve_cases, transition_cases}
use inventory_service.Consistency.Defs.{IsConsistent}
use inventory_service.Consistency.Stocking.{write-Leaves}
use inventory_service.System.Calls.{
  Call, reserves, releases, commits_sale, stocks, after, Reach, here, next,
}
use inventory_service.System.Invariants.{Reach-IsConsistent}
use inventory_service.Lifecycle.Placed.{stacked, apply_reserve-frame}
use inventory_service.Lifecycle.Settled.{decide_release-eq-proceed, decide_commit-eq-proceed}
use inventory_service.Lifecycle.Tables.{
  find-set_status_self, find-set_status_ne, SameTables, apply_lines-SameTables,
  release_line-SameTables, commit_line-SameTables,
}
use inventory_service.Lifecycle.Later.{IsLater-refl, IsLater-trans, IsKept}

module _ (id : GoString) (h : Header) where
  SameTables-IsKept :
      (db db' : Db) → find id db.reservations ≡ some h → SameTables db db' → IsKept id h db db'
  unfolding load_reservation_lines
  SameTables-IsKept db db' f same = record {
    header = h;
    found = rw same.reservations f;
    later = IsLater-refl h;
    lines = rw same.lines refl;
  }

  keep-stacked_ne :
      (other : GoString) (todo : List Allocation) (ls : List ReservationLine)
      → text_eq other id ≡ false
      → keep (λ l. text_eq l.reservation_id id) (stacked other todo ls)
        ≡ keep (λ l. text_eq l.reservation_id id) ls
  keep-stacked_ne other [] ls n = refl
  keep-stacked_ne other (a ∷ rest) ls n = keep-stacked_ne other rest _ n ∙ ground arith

  find-cons_fresh :
      (x : Header) (hs : List Header)
      → find x.id hs ≡ none
      → find id hs ≡ some h
      → (find id (x ∷ hs) ≡ some h) × (text_eq x.id id ≡ false)
  unfolding find
  find-cons_fresh x hs n f = ground arith

  reserve-IsKept :
      (rt : Runtime) (env : Env) (req : ReservationRequest) (db : Db)
      → IsKeyed db.balances
      → find id db.reservations ≡ some h
      → IsKept id h db (reserve rt env req db).1
  unfolding load_reservation_lines
  reserve-IsKept rt env req db keyed f =
      reserve_cases (λ r. IsKept id h db r.1) rt env req db
        (λ r _. SameTables-IsKept db db f (record { reservations = refl; lines = refl }))
        λ x allocations db' new allocated applied.
          let gate =
            allocate_reservation-IsGated env (Cases.claimed x db) req.items allocations keyed
              allocated in
          let (kept, stored) =
            apply_reserve-frame env req.id allocations (Cases.claimed x db) db'
              (rw gate.whole (
                IsBacked-allocations_in (Cases.claimed x db) gate.warehouse req.items gate.covered))
              applied in
          let (found, other) = find-cons_fresh x db.reservations new.fresh f in
          record {
            header = h;
            found = rw kept found;
            later = IsLater-refl h;
            lines =
                rw (stored, keep-stacked_ne req.id allocations db.lines (rw (← new.id) other)) refl;
          }

  execute-IsKept :
      (op : Operation) (env : Env) (cmd : StockCommand) (db : Db)
      → find id db.reservations ≡ some h
      → IsKept id h db (execute op env cmd db).1
  execute-IsKept op env cmd db f =
      let nothing = SameTables-IsKept db db f (record { reservations = refl; lines = refl }) in
      execute_cases (λ r. IsKept id h db r.1) op env cmd db (λ e. nothing) nothing
        λ db' g m fresh applied.
          let same = write-Leaves env cmd (claimed (intended op env cmd) db) db' op applied in
          SameTables-IsKept db db' f
            (record { reservations = same.reservations; lines = same.lines })

  -- A status that a transition sets, on this reservation or on another one.
  set_status-IsKept :
      (other : GoString) (target : Status) (now : ℕ) (db db' : Db)
      → (target ≡ released) ⊎ (target ≡ committed)
      → status_of (find other db.reservations) ≡ some reserved
      → SameTables db db'
      → find id db.reservations ≡ some h
      → IsKept id h db (record db' { reservations = set_status other target now db'.reservations })
  unfolding load_reservation_lines
  set_status-IsKept other target now db db' t s same f = elim (Bool-cases (text_eq id other)) [
    | inr n ↦ record {
      header = h;
      found = rw same.reservations (find-set_status_ne other id target now db.reservations n ∙ f);
      later = IsLater-refl h;
      lines = rw same.lines refl;
    }
    | inl y ↦
        let e : id ≡ other = ground arith in
        let found : find other db.reservations ≡ some h = rw (← e) f in
        record {
          header = record h { status = target; updated_at = now };
          found =
              rw (e, same.reservations)
                (find-set_status_self other target now db.reservations {h = h} found);
          later = record {
            id = refl;
            reference = refl;
            hash = refl;
            expires_at = refl;
            created_at = refl;
            status = inr (cc (rw found at s), t);
          };
          lines = rw same.lines refl;
        }
  ]

  transition-IsKept :
      (env : Env) (other : GoString) (target : Status) (decide : Option Status → Decision)
      (apply_line : Allocation → Db → Result Db) (db : Db)
      → (target ≡ released) ⊎ (target ≡ committed)
      → ((o : Option Header) → decide (status_of o) ≡ proceed → status_of o ≡ some reserved)
      → ((a : Allocation) (now next : Db) → apply_line a now ≡ ok next → SameTables now next)
      → find id db.reservations ≡ some h
      → IsKept id h db (transition env other target decide apply_line db).1
  unfolding load_reservation_lines
  transition-IsKept env other target decide apply_line db t opens each f =
      let nothing = SameTables-IsKept db db f (record { reservations = refl; lines = refl }) in
      transition_cases (λ r. IsKept id h db r.1) env other target decide apply_line db
        (λ e. nothing) (λ st d. nothing)
        λ db' p applied.
          let same =
            apply_lines-SameTables apply_line (load_reservation_lines db other) db db' each
              applied in
          set_status-IsKept other target env.now db db' t (opens (find other db.reservations) p)
            same f

after-IsKept :
    (rt : Runtime) (env : Env) (call : Call) (db : Db) (id : GoString) (h : Header)
    → IsConsistent db
    → find id db.reservations ≡ some h
    → IsKept id h db (after rt env call db)
unfolding after release commit
after-IsKept rt env (reserves req) db id h c f = reserve-IsKept id h rt env req db c.stocked.keyed f
after-IsKept rt env (releases other reason) db id h c f =
    transition-IsKept id h env other released decide_release (release_line env other reason) db
      (inl refl) (λ o p. (decide_release-eq-proceed o p).0)
      (release_line-SameTables env other reason) f
after-IsKept rt env (commits_sale other) db id h c f =
    transition-IsKept id h env other committed decide_commit (commit_line env other) db (inr refl)
      (λ o p. (decide_commit-eq-proceed o p).0) (commit_line-SameTables env other) f
after-IsKept rt env (stocks op cmd) db id h c f = execute-IsKept id h op env cmd db f

-- A reservation that is in a consistent state is in every state that calls can lead to from there,
-- with the same order, request hash, expiry, time of creation and lines, and with the same status, or
-- RELEASED or COMMITTED if it was RESERVED. So a status that is not RESERVED never changes.
pub Reach-IsKept :
    {rt : Runtime} {start db : Db} (id : GoString) (h : Header)
    → IsConsistent start
    → find id start.reservations ≡ some h
    → Reach rt start db
    → IsKept id h start db
Reach-IsKept {start = start} id h c f here =
    SameTables-IsKept id h start start f (record { reservations = refl; lines = refl })
Reach-IsKept {rt} {start} id h c f (next {db = now} r env call) =
    let before = Reach-IsKept id h c f r in
    let last =
      after-IsKept rt env call now id before.header (Reach-IsConsistent c r) before.found in
    record {
      header = last.header;
      found = last.found;
      later = IsLater-trans h before.header last.header before.later last.later;
      lines = last.lines ∙ before.lines;
    }
