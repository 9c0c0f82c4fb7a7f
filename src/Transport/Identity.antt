-- ===== src/Transport/Identity.antt =====
-- The canonical text of a request that has passed the edge is its demand and its region.
use mathlib.Core.List.{Perm}
use inventory_service.Base.{
  ℕ, ◌==◌, ◌+ℤ◌, GoString, ℤ, pos, IsInt64, add64, wrap64-IsInt64, ◌≡◌, ◌↔◌, Bool, true, false,
  Bool-cases, ◌||◌, List, [], ◌∷◌, All, text_eq, arith, inl, inr, leb_ℤ, ltb_ℤ,
}
use inventory_service.Domain.Types.{Line, ReservationRequest}
use inventory_service.Domain.Errors.{ok, Result-cases}
use inventory_service.Domain.Aggregate.{aggregate_lines}
use inventory_service.Domain.Merge.{merge, merge_all, aggregate_lines-merge_all}
use inventory_service.Domain.Hash.{canonical_text}
use inventory_service.Domain.Decode.{Lacks, IsPlain}
use inventory_service.Domain.Canonical.{text_sound, text_complete}
use inventory_service.Store.Database.{Runtime}
use inventory_service.Transport.Validate.{
  is_alnum, in_class, valid_sku_id, valid_destination_region,
}
use inventory_service.Transport.Wire.{ReserveMessage}
use inventory_service.Transport.Server.{checked_lines, reservation_lines, checked_request}
use inventory_service.Transport.Fit.{checked_request-IsFit}

in_class-Lacks :
    (p : ℕ → Bool) (k : ℕ) (s : GoString)
    → ((c : ℕ) → p c ≡ true → (c == k) ≡ false)
    → in_class p s ≡ true
    → Lacks k s
unfolding in_class
in_class-Lacks p k [] out h = tt
in_class-Lacks p k (c ∷ cs) out h = elim (Bool-cases (p c)) [
  | inr t ↦ absurd (ground arith)
  | inl t ↦ (out c t, in_class-Lacks p k cs out (rw t at h))
]

sku-Lacks : (s : GoString) → valid_sku_id s ≡ true → Lacks 58 s
unfolding valid_sku_id is_alnum
sku-Lacks s h =
    in_class-Lacks (λ c. is_alnum c || c == 46 || c == 95 || c == 45) 58 s (λ c t. ground arith)
      (ground arith)

region-Lacks : (s : GoString) → valid_destination_region s ≡ true → Lacks 124 s
unfolding valid_destination_region is_alnum
region-Lacks s h =
    in_class-Lacks (λ c. is_alnum c || c == 95 || c == 45) 124 s (λ c t. ground arith)
      (ground arith)

quantity-IsInt64 : (q : ℤ) → leb_ℤ q (pos 0) ≡ false → ltb_ℤ (pos 10000) q ≡ false → IsInt64 q
quantity-IsInt64 q h k = ground arith

checked_lines-IsPlain :
    (items : List Line) {lines : List Line}
    → checked_lines items ≡ ok lines
    → (lines ≡ items) × All IsPlain items
unfolding checked_lines
checked_lines-IsPlain [] h = (ground arith, tt)
checked_lines-IsPlain (it ∷ items) {lines} h = elim (Result-cases (checked_lines items)) [
  | inr (x, e) ↦ absurd (ground arith)
  | inl (rest, e) ↦
      let (same, plain) = checked_lines-IsPlain items {lines = rest} e in
      let named : valid_sku_id it.sku_id ≡ true = ground arith in
      (
        ground arith,
        ((sku-Lacks it.sku_id named, ground (arith, quantity-IsInt64 it.quantity)), plain),
      )
]

merge-IsPlain :
    (it : Line) (xs : List Line) → IsPlain it → All IsPlain xs → All IsPlain (merge it xs)
unfolding merge add64
merge-IsPlain it [] p h = (p, tt)
merge-IsPlain it (x ∷ xs) p h = elim (Bool-cases (text_eq x.sku_id it.sku_id)) [
  | inl t ↦ rw t ((h.0.0, wrap64-IsInt64 (x.quantity +ℤ it.quantity)), h.1)
  | inr t ↦ rw t (h.0, merge-IsPlain it xs p h.1)
]

merge_all-IsPlain :
    (items xs : List Line) → All IsPlain items → All IsPlain xs → All IsPlain (merge_all items xs)
unfolding merge_all
merge_all-IsPlain [] xs p h = h
merge_all-IsPlain (it ∷ items) xs p h =
    merge_all-IsPlain items (merge it xs) p.1 (merge-IsPlain it xs p.0 h)

checked_request-IsPlain :
    (rfc3339 : GoString → Bool) (rt : Runtime) (m : ReserveMessage) (req : ReservationRequest)
    → checked_request rfc3339 rt m ≡ ok req
    → All IsPlain (aggregate_lines req.items) × Lacks 124 req.destination_region
unfolding checked_request reservation_lines
checked_request-IsPlain rfc3339 rt m req h = elim (Result-cases (reservation_lines m.items)) [
  | inr (x, e) ↦ absurd (ground arith)
  | inl (lines, e) ↦
      let checked : checked_lines m.items ≡ ok lines = ground arith in
      let (same, plain) = checked_lines-IsPlain m.items {lines = lines} checked in
      let items : req.items ≡ m.items = ground arith in
      let where_to : req.destination_region ≡ m.destination_region = ground arith in
      (
        rw (items, aggregate_lines-merge_all m.items) (merge_all-IsPlain m.items [] plain tt),
        rw where_to (region-Lacks m.destination_region (ground arith)),
      )
]

-- The text that CanonicalHash digests tells requests apart exactly as it should: of two Reserve
-- requests that pass the checks of the edge, the texts are the same exactly when their aggregated
-- lines are the same up to order and their regions are the same.
pub canonical_text_exact :
    (rfc3339 : GoString → Bool) (rt : Runtime) (m m' : ReserveMessage)
    (req req' : ReservationRequest)
    → checked_request rfc3339 rt m ≡ ok req
    → checked_request rfc3339 rt m' ≡ ok req'
    → (canonical_text (aggregate_lines req.items) req.destination_region
        ≡ canonical_text (aggregate_lines req'.items) req'.destination_region)
      ↔ (Perm (aggregate_lines req.items) (aggregate_lines req'.items)
          × (req.destination_region ≡ req'.destination_region))
canonical_text_exact rfc3339 rt m m' req req' h h' =
    let (p, r) = checked_request-IsPlain rfc3339 rt m req h in
    let (p', r') = checked_request-IsPlain rfc3339 rt m' req' h' in
    let d = (checked_request-IsFit rfc3339 rt m req h).distinct in
    (
      (λ e.
          text_sound (aggregate_lines req.items) (aggregate_lines req'.items) req.destination_region
            req'.destination_region p p' r r' e),
      (λ (q, e).
          text_complete (aggregate_lines req.items) (aggregate_lines req'.items)
            req.destination_region req'.destination_region d q e),
    )
