-- ===== src/Transport/Fit.antt =====
-- What a Reserve that passes the edge asks the repository for.
use inventory_service.Base.{
  ℕ, GoString, codes, ℤ, pos, negsuc, ◌≤ℤ◌, ◌+◌, ◌*◌, ◌≤◌, IsInt64, int_laws, ◌≡◌, Bool, List, [],
  ◌∷◌, ◌++◌, length, All, arith, inl, inr,
}
use inventory_service.Domain.Types.{Line, ReservationRequest}
use inventory_service.Domain.Errors.{ok, Result-cases}
use inventory_service.Domain.Aggregate.{aggregate_lines}
use inventory_service.Domain.Merge.{merge, merge_all, aggregate_lines-merge_all}
use inventory_service.Domain.Demand.{
  IsDistinct, IsNonNegative, demand, volume, volume-nonneg, aggregate_lines_exact,
}
use inventory_service.Store.Database.{Runtime}
use inventory_service.Reservations.Reserve.{command_id_of}
use inventory_service.Transport.Validate.{valid_sku_id, valid_reservation_id}
use inventory_service.Transport.Wire.{ReserveMessage}
use inventory_service.Transport.Server.{checked_lines, reservation_lines, checked_request}

-- A line within the edge's bounds.
abbrev IsFitLine : Line → Type 0
IsFitLine l = (pos 1 ≤ℤ l.quantity) × (l.quantity ≤ℤ pos 10000) × (length l.sku_id ≤ 64)

checked_lines-fit :
    (items : List Line) {lines : List Line}
    → checked_lines items ≡ ok lines
    → (lines ≡ items) × All IsFitLine items
unfolding checked_lines valid_sku_id
checked_lines-fit [] h = (ground arith, tt)
checked_lines-fit (it ∷ items) {lines} h = elim (Result-cases (checked_lines items)) [
  | inr (x, e) ↦ absurd (ground arith)
  | inl (rest, e) ↦ let (same, fit) = checked_lines-fit items {lines = rest} e in ground arith
]

-- A hundred lines of at most ten thousand fit an int64 together.
volume-le : (items : List Line) → All IsFitLine items → volume items ≤ℤ pos (length items * 10000)
unfolding volume
volume-le [] h = omega arith
volume-le (it ∷ items) h = omega (int_laws, h.0, volume-le items h.1)

volume-IsInt64 : (v : ℤ) (n : ℕ) → pos 0 ≤ℤ v → v ≤ℤ pos (n * 10000) → n ≤ 100 → IsInt64 v
volume-IsInt64 (pos k) n p h b = (omega arith, omega arith)
volume-IsInt64 (negsuc k) n p h b = absurd (omega (arith, p))

IsFitLine-IsNonNegative : (items : List Line) → All IsFitLine items → All IsNonNegative items
IsFitLine-IsNonNegative [] h = tt
IsFitLine-IsNonNegative (it ∷ items) h = (omega (arith, h.0), IsFitLine-IsNonNegative items h.1)

-- The sum of two lines of a SKU keeps the SKU.
abbrev IsShortSku : Line → Type 0
IsShortSku l = length l.sku_id ≤ 64

merge-IsShortSku :
    (it : Line) (xs : List Line) → IsShortSku it → All IsShortSku xs → All IsShortSku (merge it xs)
unfolding merge
merge-IsShortSku it [] s h = (s, tt)
merge-IsShortSku it (x ∷ xs) s h = ground (arith, merge-IsShortSku it xs s h.1)

merge_all-IsShortSku :
    (items xs : List Line)
    → All IsFitLine items
    → All IsShortSku xs
    → All IsShortSku (merge_all items xs)
unfolding merge_all
merge_all-IsShortSku [] xs k h = h
merge_all-IsShortSku (it ∷ items) xs k h =
    merge_all-IsShortSku items (merge it xs) k.1 (merge-IsShortSku it xs k.0.2 h)

length-append : (s t : GoString) → length (s ++ t) ≡ length s + length t
length-append [] t = omega arith
length-append (c ∷ cs) t = omega (arith, length-append cs t)

-- A command_id's prefix is four bytes: `res:`, `rel:` or `cmt:`.
length-command_id_of :
    (prefix id sku : GoString)
    → length prefix ≡ 4
    → length id ≤ 186
    → length sku ≤ 64
    → length (command_id_of prefix id sku) ≤ 255
unfolding command_id_of
length-command_id_of prefix id sku p i s =
    let whole : length (prefix ++ id ++ codes ":" ++ sku) ≤ 255 = omega (
      arith,
      length-append prefix id,
      length-append (prefix ++ id) (codes ":"),
      length-append (prefix ++ id ++ codes ":") sku,
    ) in
    whole

-- What the repository is asked for, against what the caller asked for.
pub record IsFit (m : ReserveMessage) (req : ReservationRequest) : Type 0 where
  -- One line to a SKU, and the same demand for each.
  pub distinct : IsDistinct (aggregate_lines req.items)
  pub demands : (s : GoString) → demand s (aggregate_lines req.items) ≡ demand s m.items
  -- Every command_id of the reservation's movements fits its column.
  pub commands :
      (prefix : GoString)
      → length prefix ≡ 4
      → All (λ l. length (command_id_of prefix req.id l.sku_id) ≤ 255) (aggregate_lines req.items)
  pub same_id : req.id ≡ m.reservation_id
  pub same_order : req.order_id ≡ m.order_id

commands-fit :
    (prefix id : GoString) (lines : List Line)
    → length prefix ≡ 4
    → length id ≤ 186
    → All IsShortSku lines
    → All (λ l. length (command_id_of prefix id l.sku_id) ≤ 255) lines
commands-fit prefix id [] p i h = tt
commands-fit prefix id (l ∷ lines) p i h =
    (length-command_id_of prefix id l.sku_id p i h.0, commands-fit prefix id lines p i h.1)

IsFit-of_lines :
    (m : ReserveMessage) (req : ReservationRequest)
    → req.id ≡ m.reservation_id
    → req.order_id ≡ m.order_id
    → req.items ≡ m.items
    → length req.id ≤ 186
    → length m.items ≤ 100
    → All IsFitLine m.items
    → IsFit m req
IsFit-of_lines m req e o same i n fit =
    let nonneg = IsFitLine-IsNonNegative m.items fit in
    let whole = aggregate_lines_exact m.items nonneg (
      volume-IsInt64 (volume m.items) (length m.items) (volume-nonneg m.items nonneg)
        (volume-le m.items fit) n) in
    record {
      distinct = rw same whole.0;
      demands = rw same whole.1;
      commands = λ prefix p.
          commands-fit prefix req.id _ p i
            (rw (same, aggregate_lines-merge_all m.items) (merge_all-IsShortSku m.items [] fit tt));
      same_id = e;
      same_order = o;
    }

reservation_lines-fit :
    (items : List Line) {lines : List Line}
    → reservation_lines items ≡ ok lines
    → (lines ≡ items) × All IsFitLine items × (length items ≤ 100)
unfolding reservation_lines
reservation_lines-fit items {lines} h =
    let checked : checked_lines items ≡ ok lines = ground arith in
    let (same, fit) = checked_lines-fit items {lines = lines} checked in (same, fit, ground arith)

-- A Reserve request that passes the checks of the edge asks the repository for one line to a SKU,
-- with the demand for every SKU that the request's lines have together, and none of the command_ids
-- of its movements is longer than the column holds.
pub checked_request-IsFit :
    (rfc3339 : GoString → Bool) (rt : Runtime) (m : ReserveMessage) (req : ReservationRequest)
    → checked_request rfc3339 rt m ≡ ok req
    → IsFit m req
unfolding checked_request valid_reservation_id
checked_request-IsFit rfc3339 rt m req h = elim (Result-cases (reservation_lines m.items)) [
  | inr (x, e) ↦ absurd (ground arith)
  | inl (lines, e) ↦
      let (same, fit, n) = reservation_lines-fit m.items {lines = lines} e in
      IsFit-of_lines m req (ground arith) (ground arith) (ground arith) (ground arith) n fit
]
