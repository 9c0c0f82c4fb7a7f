-- ===== src/Lifecycle/Settled.antt =====
-- Release and Commit end a reservation, and once it has ended every later one is settled.
use inventory_service.Base.{
  GoString, ◌≡◌, refl, ◌∙◌, subst, Option, Option-cases, none, some, arith, ◌⊎◌, inl, inr,
  if◌then◌else◌, true, ap, sym,
}
use inventory_service.Domain.Types.{Allocation, Status, reserved, released, committed}
use inventory_service.Domain.Errors.{
  Error, Result, ok, err, invalid_transition, reservation_not_found,
}
use inventory_service.Store.Rows.{Header}
use inventory_service.Store.Reservations.{find, set_status, is_known}
use inventory_service.Store.Database.{Db, Env, transact}
use inventory_service.Reservations.Reserve.{load_reservation_lines}
use inventory_service.Reservations.Transition.{
  Decision, proceed, done, refuse, decide_release, decide_commit, release_line, commit_line,
  status_of, transition, transition_body, lock_status, release, commit,
}
use inventory_service.Reservations.Cases.{transition_cases}
use inventory_service.Lifecycle.Tables.{
  find-set_status_self, apply_lines-SameTables, release_line-SameTables, commit_line-SameTables,
}

module _ (env : Env) (id : GoString) (db : Db) (begins : env.begin ≡ none)
    (locks : env.lock ≡ none) where
  transition_done :
      (target st : Status) (decide : Option Status → Decision)
      (apply_line : Allocation → Db → Result Db)
      → decide (status_of (find id db.reservations)) ≡ done st
      → transition env id target decide apply_line db ≡ (ok st, db)
  unfolding transition transition_body lock_status transact
  transition_done target st decide apply_line d = ground (arith, d)

  transition_refused :
      (target : Status) (e : Error) (decide : Option Status → Decision)
      (apply_line : Allocation → Db → Result Db)
      → decide (status_of (find id db.reservations)) ≡ refuse e
      → transition env id target decide apply_line db ≡ (err e, db)
  unfolding transition transition_body lock_status transact
  transition_refused target e decide apply_line d = ground (arith, d)

  -- The four calls that find a reservation, or none, that has ended.
  release_of_ended :
      (reason : GoString) {o : Option Status}
      → status_of (find id db.reservations) ≡ o
      → decide_release o ≡ done released
      → release env id reason db ≡ (ok released, db)
  unfolding release
  release_of_ended reason s d =
      transition_done released released decide_release (release_line env id reason)
        (ap decide_release s ∙ d)

  release_of_sold :
      (reason : GoString)
      → status_of (find id db.reservations) ≡ some committed
      → release env id reason db ≡ (err invalid_transition, db)
  unfolding release decide_release
  release_of_sold reason s =
      transition_refused released invalid_transition decide_release (release_line env id reason)
        (ap decide_release s)

  commit_of_sold :
      status_of (find id db.reservations) ≡ some committed → commit env id db ≡ (ok committed, db)
  unfolding commit decide_commit
  commit_of_sold s =
      transition_done committed committed decide_commit (commit_line env id) (ap decide_commit s)

  commit_of_ended :
      {o : Option Status} {e : Error}
      → status_of (find id db.reservations) ≡ o
      → decide_commit o ≡ refuse e
      → commit env id db ≡ (err e, db)
  unfolding commit
  commit_of_ended {e = e} s d =
      transition_refused committed e decide_commit (commit_line env id) (ap decide_commit s ∙ d)

-- Which statuses settle a call, and which let it proceed.
decide_release-eq-done :
    (o : Option Header) {st : Status}
    → decide_release (status_of o) ≡ done st
    → (st ≡ released) × ((o ≡ none) ⊎ ((status_of o ≡ some released) × (is_known o ≡ true)))
unfolding decide_release
decide_release-eq-done none d = (ground arith, inl refl)
decide_release-eq-done (some h) d = (ground arith, inr (ground arith))

pub decide_release-eq-proceed :
    (o : Option Header)
    → decide_release (status_of o) ≡ proceed
    → (status_of o ≡ some reserved) × (is_known o ≡ true)
unfolding decide_release
decide_release-eq-proceed none p = absurd (ground arith)
decide_release-eq-proceed (some h) p = ground arith

decide_commit-eq-done :
    (o : Option Header) {st : Status}
    → decide_commit (status_of o) ≡ done st
    → (st ≡ committed) × (status_of o ≡ some committed)
unfolding decide_commit
decide_commit-eq-done none d = absurd (ground arith)
decide_commit-eq-done (some h) d = ground arith

pub decide_commit-eq-proceed :
    (o : Option Header)
    → decide_commit (status_of o) ≡ proceed
    → (status_of o ≡ some reserved) × (is_known o ≡ true)
unfolding decide_commit
decide_commit-eq-proceed none p = absurd (ground arith)
decide_commit-eq-proceed (some h) p = ground arith

-- What a call says and leaves, if it succeeds.
abbrev pub OfCall {ℓ} : (Status → Db → Type ℓ) → Result Status × Db → Type ℓ
OfCall P (ok st, now) = P st now
OfCall P (err e, now) = Unit

module _ (env env' : Env) (id : GoString) (db : Db) where
  -- After a release: it is released, and stays so.
  pub record IsReleased (st : Status) (now : Db) : Type 0 where
    pub status : st ≡ released
    pub released_again : (reason : GoString) → release env' id reason now ≡ (ok released, now)
    pub not_sold : commit env' id now ≡ (
      err (
          if is_known (find id db.reservations) then invalid_transition else reservation_not_found),
      now,
    )

  -- After a sale: it is sold, and stays so.
  pub record IsSold (st : Status) (now : Db) : Type 0 where
    pub status : st ≡ committed
    pub sold_again : commit env' id now ≡ (ok committed, now)
    pub not_released :
        (reason : GoString) → release env' id reason now ≡ (err invalid_transition, now)

  module _ (begins : env'.begin ≡ none) (locks : env'.lock ≡ none) where
    set_status-known :
        (target : Status) (now : Db)
        → is_known (find id db.reservations) ≡ true
        → now.reservations ≡ db.reservations
        → status_of (find id (set_status id target env.now now.reservations)) ≡ some target
    set_status-known target now k same = elim (Option-cases (find id db.reservations)) [
      | inl n ↦ absurd (cc (rw n at k))
      | inr (h, f) ↦
          rw (same, find-set_status_self id target env.now db.reservations {h = h} f) refl
    ]

    IsReleased-of_status :
        (now : Db)
        → is_known (find id db.reservations) ≡ true
        → status_of (find id now.reservations) ≡ some released
        → IsReleased released now
    unfolding decide_release decide_commit
    IsReleased-of_status now k s = record {
      status = refl;
      released_again =
          λ reason. release_of_ended env' id now begins locks reason {o = some released} s refl;
      not_sold = rw k (
          commit_of_ended env' id now begins locks {o = some released} {e = invalid_transition} s
            refl);
    }

    IsReleased-of_missing : find id db.reservations ≡ none → IsReleased released db
    unfolding decide_release decide_commit
    IsReleased-of_missing n = record {
      status = refl;
      released_again =
          λ reason. release_of_ended env' id db begins locks reason {o = none} (rw n refl) refl;
      not_sold =
          commit_of_ended env' id db begins locks {o = none} {e = reservation_not_found} (rw n refl)
            refl
          ∙ rw n refl;
    }

    -- A release that succeeds says RELEASED and settles the matter, also where there was nothing
    -- to release. On the state that it leaves, a release that can begin and is granted its lock
    -- says RELEASED and changes nothing, and a sale is refused, with ErrInvalidTransition if there
    -- was such a reservation and with ErrReservationNotFound if there was none, and changes
    -- nothing.
    pub release_outcome : (reason : GoString) → OfCall IsReleased (release env id reason db)
    unfolding release
    release_outcome reason =
        transition_cases (OfCall IsReleased) env id released decide_release
          (release_line env id reason) db (λ e. tt)
          (λ st d.
            let (same, how) = decide_release-eq-done (find id db.reservations) {st = st} d in
            subst (λ x. IsReleased x db) (sym same)
              (elim how [
                | inl n ↦ IsReleased-of_missing n
                | inr (s, k) ↦ IsReleased-of_status db k s
              ]))
          λ db' p applied.
            let (_, k) = decide_release-eq-proceed (find id db.reservations) p in
            let same =
              apply_lines-SameTables (release_line env id reason) (load_reservation_lines db id) db
                db' (release_line-SameTables env id reason) applied in
            IsReleased-of_status _ k (set_status-known released db' k same.reservations)

    IsSold-of_status :
        (now : Db) → status_of (find id now.reservations) ≡ some committed → IsSold committed now
    IsSold-of_status now s = record {
      status = refl;
      sold_again = commit_of_sold env' id now begins locks s;
      not_released = λ reason. release_of_sold env' id now begins locks reason s;
    }

    -- A sale that succeeds says COMMITTED and settles the matter. On the state that it leaves, a
    -- sale that can begin and is granted its lock says COMMITTED and changes nothing, and a
    -- release is refused with ErrInvalidTransition and changes nothing.
    pub commit_outcome : OfCall IsSold (commit env id db)
    unfolding commit
    commit_outcome =
        transition_cases (OfCall IsSold) env id committed decide_commit (commit_line env id) db
          (λ e. tt)
          (λ st d.
            let (same, s) = decide_commit-eq-done (find id db.reservations) {st = st} d in
            subst (λ x. IsSold x db) (sym same) (IsSold-of_status db s))
          λ db' p applied.
            let (_, k) = decide_commit-eq-proceed (find id db.reservations) p in
            let same =
              apply_lines-SameTables (commit_line env id) (load_reservation_lines db id) db db'
                (commit_line-SameTables env id) applied in
            IsSold-of_status _ (set_status-known committed db' k same.reservations)
