-- ===== src/Reservations/Cases.antt =====
-- How Reserve, Release and Commit can end.
use inventory_service.Base.{
  ℕ, length, ◌≤◌, GoString, ◌≡◌, refl, true, false, Option, none, some, List, ◌∷◌, arith, ◌⊎◌, ◌∙◌,
  ap, inl, inr, Option-cases,
}
use inventory_service.Domain.Types.{
  Allocation, Status, reserved, ReservationRequest, ReservationResult,
}
use inventory_service.Domain.Errors.{Error, Result, ok, err, Result-cases}
use inventory_service.Domain.Hash.{canonical_hash}
use inventory_service.Store.Rows.{Header}
use inventory_service.Store.Reservations.{find, find_reference, set_status}
use inventory_service.Store.Database.{Db, Env, Runtime, transact}
use inventory_service.Reservations.Allocate.{translate_concurrency, allocate_reservation}
use inventory_service.Reservations.Reserve.{
  reserve, claim_reservation, insert_header, new_header, read_expiry, claimed_or_replayed,
  place_hold, apply_reserve, replay_reservation, resolve_claim_error, load_reservation_lines,
}
use inventory_service.Reservations.Transition.{
  Decision, proceed, done, refuse, transition, transition_body, lock_status, status_of, proceed_to,
  apply_lines,
}

-- What a claim writes fits its columns.
pub record IsStorable (rt : Runtime) (req : ReservationRequest) (digest : GoString) : Type 0 where
  pub expiry : Option ℕ
  pub reads : read_expiry rt req.expires_at ≡ ok expiry
  pub id_fits : length req.id ≤ 255
  pub order_fits : length req.order_id ≤ 255
  pub hash_fits : length digest ≤ 128

-- A row that a claim can insert: its id and its order id are new, and it is RESERVED.
pub record IsNew (rt : Runtime) (req : ReservationRequest) (digest : GoString) (db : Db)
    (h : Header) : Type 0 where
  pub id : h.id ≡ req.id
  pub reference : h.external_reference ≡ req.order_id
  pub hash : h.request_hash ≡ digest
  pub status : h.status ≡ reserved
  pub fresh : find h.id db.reservations ≡ none
  pub unused : find_reference h.external_reference db.reservations ≡ none
  pub storable : IsStorable rt req digest

abbrev pub claimed : Header → Db → Db
claimed h db = record db { reservations = h ∷ db.reservations }

insert_header-eq-some :
    (env : Env) (h : Header) (db : Db) {db' : Db}
    → insert_header env h db ≡ ok (some db')
    → (db' ≡ claimed h db)
      × (find h.id db.reservations ≡ none)
      × (find_reference h.external_reference db.reservations ≡ none)
unfolding insert_header
insert_header-eq-some env h db e = ground arith

claim_reservation-IsStorable :
    (rt : Runtime) (env : Env) (req : ReservationRequest) (hash : GoString) (db : Db) (t : Option ℕ)
    {db' : Db}
    → read_expiry rt req.expires_at ≡ ok t
    → claim_reservation rt env req hash db ≡ ok (some db')
    → IsStorable rt req hash
unfolding claim_reservation
claim_reservation-IsStorable rt env req hash db t r e = record {
  expiry = t;
  reads = r;
  id_fits = ground arith;
  order_fits = ground arith;
  hash_fits = ground arith;
}

claim_reservation-eq-some :
    (rt : Runtime) (env : Env) (req : ReservationRequest) (hash : GoString) (db : Db) {db' : Db}
    → claim_reservation rt env req hash db ≡ ok (some db')
    → (h : Header) × IsNew rt req hash db h × (db' ≡ claimed h db)
unfolding claim_reservation
claim_reservation-eq-some rt env req hash db {db'} e =
    elim (Result-cases (read_expiry rt req.expires_at)) [
      | inr (x, e₁) ↦ absurd (ground arith)
      | inl (t, e₁) ↦
          let (same, fresh, unused) =
            insert_header-eq-some env (new_header env req hash t) db {db' = db'} (ground arith) in
          (
            new_header env req hash t,
            record {
              id = refl;
              reference = refl;
              hash = refl;
              status = refl;
              fresh = fresh;
              unused = unused;
              storable = claim_reservation-IsStorable rt env req hash db t {db' = db'} e₁ e;
            },
            same,
          )
    ]

-- A result that a fresh reservation has.
abbrev pub held_result : ReservationRequest → List Allocation → ReservationResult
held_result req allocations = record {
  id = req.id;
  status = reserved;
  allocations = allocations;
  replayed = false;
}

-- A replay, or an error.
abbrev pub IsReplayed : Result ReservationResult → Type 0
IsReplayed r = (x : ReservationResult) → r ≡ ok x → x.replayed ≡ true

replay_reservation-IsReplayed :
    (db : Db) (id order_id hash : GoString) → IsReplayed (replay_reservation db id order_id hash)
unfolding replay_reservation
replay_reservation-IsReplayed db id order_id hash x h = ground arith

resolve_claim_error-IsReplayed :
    (req : ReservationRequest) (hash : GoString) (db : Db) (e : Error)
    → IsReplayed (resolve_claim_error req hash db e)
unfolding resolve_claim_error
resolve_claim_error-IsReplayed req hash db e x h =
    ground (arith, replay_reservation-IsReplayed db req.id req.order_id hash x)

module _ {ℓ} (P : Result ReservationResult × Db → Type ℓ) (env : Env) (req : ReservationRequest)
    (hash : GoString) (db : Db)
    (unchanged : (r : Result ReservationResult) → IsReplayed r → P (r, db)) where
  finish_cases :
      (claim : Option Db)
      → ((db1 : Db)
          → claim ≡ some db1
          → (allocations : List Allocation) (db' : Db)
          → allocate_reservation env db1 req.items ≡ ok allocations
          → apply_reserve env req.id allocations db1 ≡ ok db'
          → P (ok (held_result req allocations), db'))
      → P (transact env translate_concurrency (claimed_or_replayed env req hash db claim) db)
  unfolding transact claimed_or_replayed place_hold
  finish_cases claim fresh = elim (Option-cases env.begin) [
    | inr (e, b) ↦ rw (b, transact) (unchanged (err e) (λ x h. cc h))
    | inl b ↦
        rw (b, transact)
          (elim (Option-cases claim) [
            | inl c ↦ rw c (elim (Result-cases (replay_reservation db req.id req.order_id hash)) [
              | inl (r, e) ↦ rw e (
                  unchanged (ok r)
                    (λ x h. replay_reservation-IsReplayed db req.id req.order_id hash x (e ∙ h)))
              | inr (x, e) ↦ rw e (unchanged (err x) (λ y h. cc h))
            ])
            | inr (db1, c) ↦ rw c (elim (Result-cases (allocate_reservation env db1 req.items)) [
              | inr (x, e) ↦ rw e (unchanged (err x) (λ y h. cc h))
              | inl (as₁, e) ↦ rw e (elim (Result-cases (apply_reserve env req.id as₁ db1)) [
                | inr (x, e') ↦ rw e' (unchanged (err x) (λ y h. cc h))
                | inl (db', e') ↦ rw e' (elim (Option-cases env.commit) [
                  | inr (x, k) ↦ rw k (unchanged (err (translate_concurrency x)) (λ y h. cc h))
                  | inl k ↦ rw k (fresh db1 c as₁ db' e e')
                ])
              ])
            ])
          ])
  ]

-- Reserve leaves the database with an error or a replay, or has claimed a new id and held the basket.
pub reserve_cases {ℓ} :
    (P : Result ReservationResult × Db → Type ℓ) (rt : Runtime) (env : Env)
    (req : ReservationRequest) (db : Db)
    → ((r : Result ReservationResult) → IsReplayed r → P (r, db))
    → ((h : Header) (allocations : List Allocation) (db' : Db)
        → IsNew rt req (canonical_hash rt.sha256_hex req.items req.destination_region) db h
        → allocate_reservation env (claimed h db) req.items ≡ ok allocations
        → apply_reserve env req.id allocations (claimed h db) ≡ ok db'
        → P (ok (held_result req allocations), db'))
    → P (reserve rt env req db)
unfolding reserve
reserve_cases P rt env req db unchanged fresh =
    let hash = canonical_hash rt.sha256_hex req.items req.destination_region in
    elim (Option-cases env.begin) [
      | inr (e, b) ↦ rw (b, reserve) (unchanged (err e) (λ x h. cc h))
      | inl b ↦
          rw (b, reserve)
            (elim (Result-cases (claim_reservation rt env req hash db)) [
              | inr (e, c) ↦ rw c (unchanged _ (resolve_claim_error-IsReplayed req hash db e))
              | inl (claim, c) ↦ rw c (
                  finish_cases P env req hash db unchanged claim λ db1 same allocations db' a p.
                    let (h, new, eq) =
                      claim_reservation-eq-some rt env req hash db {db' = db1} (c ∙ ap ok same) in
                    fresh h allocations db' new (rw eq at a) (rw eq at p))
            ])
    ]

pub Decision-cases :
    (d : Decision)
    → (d ≡ proceed) ⊎ (((st : Status) × (d ≡ done st)) ⊎ ((e : Error) × (d ≡ refuse e)))
Decision-cases proceed = inl refl
Decision-cases (done st) = inr (inl (st, refl))
Decision-cases (refuse e) = inr (inr (e, refl))

-- Release and Commit fail, have nothing to do in the status that they find, or have applied every line of a reservation whose status
-- lets them proceed and set its status.
pub transition_cases {ℓ} :
    (P : Result Status × Db → Type ℓ) (env : Env) (id : GoString) (target : Status)
    (decide : Option Status → Decision) (apply_line : Allocation → Db → Result Db) (db : Db)
    → ((e : Error) → P (err e, db))
    → ((st : Status) → decide (status_of (find id db.reservations)) ≡ done st → P (ok st, db))
    → ((db' : Db)
        → decide (status_of (find id db.reservations)) ≡ proceed
        → apply_lines apply_line (load_reservation_lines db id) db ≡ ok db'
        → P (
          ok target,
          record db' { reservations = set_status id target env.now db'.reservations },
        ))
    → P (transition env id target decide apply_line db)
unfolding transition transition_body transact lock_status proceed_to
transition_cases P env id target decide apply_line db failed settled applied =
    elim (Option-cases env.begin) [
      | inr (e, b) ↦ rw (b, transition) (failed e)
      | inl b ↦
          rw (b, transition)
            (elim (Option-cases env.lock) [
              | inr (e, l) ↦ rw l (failed ((translate_concurrency e)))
              | inl l ↦ rw l (elim (Decision-cases (decide (status_of (find id db.reservations)))) [
                | inl p ↦
                    rw p
                      (elim (Result-cases
                        (apply_lines apply_line (load_reservation_lines db id) db)) [
                          | inr (x, e) ↦ rw e (failed x)
                          | inl (db', e) ↦ rw e (elim (Option-cases env.commit) [
                            | inr (x, k) ↦ rw k (failed ((translate_concurrency x)))
                            | inl k ↦ rw k (applied db' p e)
                          ])
                        ])
                | inr (inl (st, d)) ↦ rw d (settled st d)
                | inr (inr (e, d)) ↦ rw d (failed e)
              ])
            ])
    ]
