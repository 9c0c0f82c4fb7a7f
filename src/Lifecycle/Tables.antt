-- ===== src/Lifecycle/Tables.antt =====
-- The tables of reservations under a change of status, and under the loops of Release and Commit.
use inventory_service.Base.{ℕ, GoString, text_eq, ◌≡◌, refl, ◌∙◌, some, List, [], ◌∷◌, arith, false}
use inventory_service.Domain.Types.{Allocation, Status}
use inventory_service.Domain.Errors.{Result, ok}
use inventory_service.Store.Rows.{Header}
use inventory_service.Store.Reservations.{find, set_status}
use inventory_service.Store.Database.{Db, Env}
use inventory_service.Reservations.Transition.{apply_lines, release_line, commit_line}
use inventory_service.Reservations.Lines.{release_line-ReturnStep, commit_line-ReturnStep}
use inventory_service.Reservations.Loops.{apply_lines_induction}

pub find-set_status_self :
    (i : GoString) (st : Status) (now : ℕ) (hs : List Header) {h : Header}
    → find i hs ≡ some h
    → find i (set_status i st now hs) ≡ some (record h { status = st; updated_at = now })
unfolding find set_status
find-set_status_self i st now [] e = absurd (cc e)
find-set_status_self i st now (x ∷ hs) {h} e =
    ground (arith, find-set_status_self i st now hs {h = h})

pub find-set_status_ne :
    (i j : GoString) (st : Status) (now : ℕ) (hs : List Header)
    → text_eq j i ≡ false
    → find j (set_status i st now hs) ≡ find j hs
unfolding find set_status
find-set_status_ne i j st now [] n = refl
find-set_status_ne i j st now (x ∷ hs) n = ground (arith, find-set_status_ne i j st now hs n)

-- What the tables of reservations have in common before and after a loop of lines.
pub record SameTables (db db' : Db) : Type 0 where
  pub reservations : db'.reservations ≡ db.reservations
  pub lines : db'.lines ≡ db.lines

pub apply_lines-SameTables :
    (apply_line : Allocation → Db → Result Db) (todo : List Allocation) (db db' : Db)
    → ((a : Allocation) (now next : Db) → apply_line a now ≡ ok next → SameTables now next)
    → apply_lines apply_line todo db ≡ ok db'
    → SameTables db db'
apply_lines-SameTables apply_line todo db db' each h =
    apply_lines_induction apply_line (λ _ now. SameTables db now)
      (λ a rest now next e p.
        let q = each a now next e in
        record { reservations = q.reservations ∙ p.reservations; lines = q.lines ∙ p.lines })
      todo db db' h (record { reservations = refl; lines = refl })

pub release_line-SameTables :
    (env : Env) (id reason : GoString) (a : Allocation) (db db' : Db)
    → release_line env id reason a db ≡ ok db'
    → SameTables db db'
release_line-SameTables env id reason a db db' h =
    let done = release_line-ReturnStep env id a reason db db' h in
    record { reservations = done.step.reservations; lines = done.lines }

pub commit_line-SameTables :
    (env : Env) (id : GoString) (a : Allocation) (db db' : Db)
    → commit_line env id a db ≡ ok db'
    → SameTables db db'
commit_line-SameTables env id a db db' h =
    let done = commit_line-ReturnStep env id a db db' h in
    record { reservations = done.step.reservations; lines = done.lines }
