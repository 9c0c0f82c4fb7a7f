-- ===== src/Transport/Resend.antt =====
-- A reservation id that is used again: which requests are retries of the one that made it.
use mathlib.Core.List.{Perm}
use inventory_service.Base.{
  GoString, text_eq, ◌≡◌, refl, sym, ap, ◌∙◌, Bool, true, ◌&&◌, Bool-cases, none, some, arith, inl,
  inr,
}
use inventory_service.Domain.Types.{ReservationRequest}
use inventory_service.Domain.Errors.{ok, err, idempotency_conflict}
use inventory_service.Domain.Aggregate.{aggregate_lines}
use inventory_service.Domain.Hash.{canonical_hash, canonical_text}
use inventory_service.Store.Rows.{Header}
use inventory_service.Store.Reservations.{find}
use inventory_service.Store.Database.{Db, Env, Runtime}
use inventory_service.Reservations.Cases.{IsStorable}
use inventory_service.Lifecycle.Replay.{as_stored, reserve_taken}
use inventory_service.Transport.Wire.{ReserveMessage}
use inventory_service.Transport.Server.{checked_request, service_reserve}
use inventory_service.Transport.Identity.{canonical_text_exact}

text_eq_complete : (a b : GoString) → a ≡ b → text_eq a b ≡ true
text_eq_complete a b h = ground arith

text_eq_sound : (a b : GoString) → text_eq a b ≡ true → a ≡ b
text_eq_sound a b h = ground arith

-- A request as the service passes it on.
abbrev pub aggregated : ReservationRequest → ReservationRequest
aggregated req = record req { items = aggregate_lines req.items }

-- Two requests ask for the same: the same demand for the same region and order.
pub record IsSameOrder (h : Header) (req req' : ReservationRequest) : Type 0 where
  pub demand : Perm (aggregate_lines req.items) (aggregate_lines req'.items)
  pub region : req.destination_region ≡ req'.destination_region
  pub order : h.external_reference ≡ req'.order_id

abbrev pub text_of : ReservationRequest → GoString
text_of req = canonical_text (aggregate_lines req.items) req.destination_region

module _ (rfc3339 : GoString → Bool) (rt : Runtime) (m m' : ReserveMessage)
    (req req' : ReservationRequest) (h : Header)
    (apart : rt.sha256_hex (text_of req) ≡ rt.sha256_hex (text_of req')
      → text_of req ≡ text_of req')
    (passed : checked_request rfc3339 rt m ≡ ok req)
    (passed' : checked_request rfc3339 rt m' ≡ ok req')
    (made : h.request_hash ≡ rt.sha256_hex (text_of req)) where
  abbrev retried : Bool
  retried =
      text_eq h.request_hash (rt.sha256_hex (text_of req'))
      && text_eq h.external_reference req'.order_id

  retried_complete : IsSameOrder h req req' → retried ≡ true
  retried_complete same =
      let text =
        (canonical_text_exact rfc3339 rt m m' req req' passed passed').1
          (same.demand, same.region) in
      rw (text_eq_complete _ _ (made ∙ ap rt.sha256_hex text), text_eq_complete _ _ same.order)

  retried_sound : retried ≡ true → IsSameOrder h req req'
  retried_sound t =
      let hash = text_eq_sound h.request_hash (rt.sha256_hex (text_of req')) (ground arith) in
      let text = apart (sym made ∙ hash) in
      let (demand, region) =
        (canonical_text_exact rfc3339 rt m m' req req' passed passed').0 text in
      record {
        demand = demand;
        region = region;
        order = text_eq_sound h.external_reference req'.order_id (ground arith);
      }

  -- A reservation id is used again. Let a header stand under the id of a request that passes the
  -- edge, with the hash of a request that passed it before, and let SHA-256 tell the texts of the
  -- two apart if they differ. If the values fit their columns and the transaction can begin, then
  -- the service answers with the reservation as it now is, marked as a replay, when the two ask
  -- for the same lines up to order, the same region and the same order id, and refuses with
  -- ErrIdempotencyConflict in every other case; it changes nothing.
  pub service_reserve_exact :
      (env : Env) (db : Db)
      → find req'.id db.reservations ≡ some h
      → IsStorable rt (aggregated req') (rt.sha256_hex (text_of req'))
      → env.begin ≡ none
      → (IsSameOrder h req req'
          → service_reserve rt env req' db ≡ (ok (as_stored rt env (aggregated req') db h), db))
        × (¬ IsSameOrder h req req'
            → service_reserve rt env req' db ≡ (err idempotency_conflict, db))
  unfolding service_reserve canonical_hash
  service_reserve_exact env db found storable begins =
      let taken = reserve_taken rt env (aggregated req') db h storable begins found in
      (
        (λ same. taken ∙ rw (retried_complete same) refl),
        (λ other. elim (Bool-cases retried) [
          | inl t ↦ absurd (other (retried_sound t))
          | inr t ↦ taken ∙ rw t refl
        ]),
      )
