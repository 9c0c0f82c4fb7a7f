-- ===== src/Domain/Errors.antt =====
-- The errors of internal/core/domain and of the repositories, as values. The text that fmt.Errorf
-- puts round an error is left out: the code only asks which error stands inside (errors.Is).
use inventory_service.Base.{GoString, List, Bool, true, false, ◌≡◌, refl, ◌⊎◌, inl, inr}
use inventory_service.Domain.Types.{Shortage}

-- The SQLSTATE of a pgconn.PgError.
pub data SqlState : Type 0 where
  -- 40001, 40P01 and 55P03
  serialization_failure deadlock_detected lock_not_available : SqlState
  -- 23505, 23514 and 23503
  unique_violation check_violation foreign_key_violation : SqlState
  -- 22001, 22003 and 22007
  string_too_long out_of_range invalid_datetime : SqlState
  -- 57014, and any other code
  query_canceled other_state : SqlState

pub data Error : Type 0 where
  insufficient_stock : List Shortage → Error
  unknown_sku : List GoString → Error
  idempotency_conflict invalid_transition reservation_not_found concurrency_conflict : Error
  command_conflict insufficient_on_hand balance_not_found invalid_command : Error
  non_positive_quantity : Error
  -- errors.New in Validate and at the head of a command
  invalid_input : Error
  -- errOrderRefTaken and pgx.ErrNoRows
  order_ref_taken no_rows : Error
  -- "%d rows updated, want 1"
  rows_updated : Error
  -- context.Canceled
  canceled : Error
  pg : SqlState → Error

pub data Result {ℓ} (A : Type ℓ) : Type ℓ where
  ok : A → Result A
  err : Error → Result A

infixl 5 ◌>>=◌ ◌>>◌
abbrev pub ◌>>=◌ {ℓ ℓ'} : {A : Type ℓ} {B : Type ℓ'} → Result A → (A → Result B) → Result B
err stop >>= next = err stop
ok x >>= next = next x

abbrev pub ◌>>◌ {ℓ} : {B : Type ℓ} → Result (Unit {0}) → Result B → Result B
err stop >> next = err stop
ok _ >> next = next

-- Goes on if the test holds.
abbrev pub require : Bool → Error → Result (Unit {0})
require true e = ok tt
require false e = err e

abbrev pub on_error {ℓ} : {A : Type ℓ} → (Error → Error) → Result A → Result A
on_error f (ok a) = ok a
on_error f (err e) = err (f e)

pub Result-cases {ℓ} :
    {A : Type ℓ} (r : Result A) → ((a : A) × (r ≡ ok a)) ⊎ ((e : Error) × (r ≡ err e))
Result-cases (ok a) = inl (a, refl)
Result-cases (err e) = inr (e, refl)
