-- ===== src/Store/Database.antt =====
-- The database, and what the environment of one transaction contributes.
use inventory_service.Base.{ℕ, GoString, Bool, Option, none, some, List}
use inventory_service.Domain.Errors.{Error, Result, ok, err}
use inventory_service.Store.Rows.{Warehouse, Balance, Header, ReservationLine, Movement}

pub record Db : Type 0 where
  pub warehouses : List Warehouse
  pub balances : List Balance
  pub reservations : List Header
  pub lines : List ReservationLine
  pub movements : List Movement

-- What is outside the repository: SHA-256 in hexadecimal, and Postgres' reading of a timestamptz.
pub record Runtime : Type 0 where
  pub sha256_hex : GoString → GoString
  pub parse_timestamptz : GoString → Option ℕ

-- One call's circumstances. `begin`, `lock` and `commit` are the failures, if any, of BEGIN, of the
-- wait for a row lock, and of COMMIT. A COMMIT that fails is assumed to be rolled back: that Postgres
-- has committed and the client sees an error, as when the connection breaks or the context ends
-- before the answer, is no case of `commit`; it leaves the state of the same call with no failure.
-- `snapshot` is what the unlocked scan of Reserve saw, which other transactions may since have
-- changed. `lost_race` says that a claim's look for its own id came before a concurrent claim of that
-- id committed.
pub record Env : Type 0 where
  pub now : ℕ
  pub begin : Option Error
  pub lock : Option Error
  pub commit : Option Error
  pub snapshot : Db
  pub lost_race : Bool

abbrev pub unless {ℓ} : {A : Type ℓ} → Option Error → Result A → Result A
unless none m = m
unless (some e) m = err e

-- What a transaction's body has decided: to commit with a result, or to leave the deferred
-- Rollback undo it and return a result all the same.
pub data Ending (A : Type 0) : Type 0 where
  commits : A → Db → Ending A
  leaves : A → Ending A

-- Begin, body, Commit, and the deferred Rollback: whatever does not commit leaves the database.
-- The second argument is what the caller wraps a failed COMMIT in, which is taken as rolled back.
unfoldable pub transact :
    {A : Type 0} → Env → (Error → Error) → Result (Ending A) → Db → Result A × Db
transact env wrap body db = elim env.begin [
  | some e ↦ (err e, db)
  | none ↦ elim body [
    | err e ↦ (err e, db)
    | ok (leaves a) ↦ (ok a, db)
    | ok (commits a db') ↦ elim env.commit [ some e ↦ (err (wrap e), db) | none ↦ (ok a, db') ]
  ]
]
