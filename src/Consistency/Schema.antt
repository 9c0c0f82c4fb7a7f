-- ===== src/Consistency/Schema.antt =====
-- The keys, the foreign keys and the CHECK of the other tables of 000002_inventory_schema.up.sql. The
-- CHECKs and the key of the balances and the key of the movements are IsStocked, and that no line is
-- without its reservation is in IsConsistent. A status or a type outside its CHECK has no value here.
use inventory_service.Base.{
  ℕ, GoString, ℤ, pos, ◌≤ℤ◌, ◌≡◌, true, false, none, List, [], ◌∷◌, All, Bool-cases, inl, inr,
  arith,
}
use inventory_service.Domain.Types.{Status}
use inventory_service.Store.Rows.{Warehouse, Balance, Movement, Header, ReservationLine}
use inventory_service.Store.Balances
use inventory_service.Store.Balances.{replace}
use inventory_service.Store.Movements.{warehouse_exists}
use inventory_service.Store.Reservations.{find, find_reference, has_line, set_status}
use inventory_service.Store.Database.{Db}

-- `id` is the PRIMARY KEY.
abbrev pub IsUniqueId : List Header → Type 0
IsUniqueId [] = Unit
IsUniqueId (h ∷ hs) = (find h.id hs ≡ none) × IsUniqueId hs

-- `external_reference` is UNIQUE.
abbrev pub IsUniqueReference : List Header → Type 0
IsUniqueReference [] = Unit
IsUniqueReference (h ∷ hs) = (find_reference h.external_reference hs ≡ none) × IsUniqueReference hs

-- `PRIMARY KEY (reservation_id, sku_id)`
abbrev pub IsUniqueLine : List ReservationLine → Type 0
IsUniqueLine [] = Unit
IsUniqueLine (l ∷ ls) = (has_line l.reservation_id l.sku_id ls ≡ false) × IsUniqueLine ls

-- `REFERENCES warehouses(id)`
abbrev pub IsPlaced : List Warehouse → ℤ → Type 0
IsPlaced ws w = warehouse_exists w ws ≡ true

pub record IsIntact (db : Db) : Type 0 where
  pub ids : IsUniqueId db.reservations
  pub references : IsUniqueReference db.reservations
  pub lines : IsUniqueLine db.lines
  -- CHECK (quantity > 0)
  pub quantities : All (λ (l : ReservationLine). ¬ (l.quantity ≤ℤ pos 0)) db.lines
  pub lines_placed : All (λ (l : ReservationLine). IsPlaced db.warehouses l.warehouse_id) db.lines
  pub balances_placed : All (λ (b : Balance). IsPlaced db.warehouses b.warehouse_id) db.balances
  pub movements_placed : All (λ (m : Movement). IsPlaced db.warehouses m.warehouse_id) db.movements

-- A change of status keeps the keys.
find-set_status-none :
    (i j : GoString) (st : Status) (now : ℕ) (hs : List Header)
    → find j hs ≡ none
    → find j (set_status i st now hs) ≡ none
unfolding find set_status
find-set_status-none i j st now [] n = n
find-set_status-none i j st now (h ∷ hs) n = ground (arith, find-set_status-none i j st now hs)

find_reference-set_status-none :
    (i r : GoString) (st : Status) (now : ℕ) (hs : List Header)
    → find_reference r hs ≡ none
    → find_reference r (set_status i st now hs) ≡ none
unfolding find_reference set_status
find_reference-set_status-none i r st now [] n = n
find_reference-set_status-none i r st now (h ∷ hs) n =
    ground (arith, find_reference-set_status-none i r st now hs)

module _ (i : GoString) (st : Status) (now : ℕ) where
  pub set_status-IsUniqueId :
      (hs : List Header) → IsUniqueId hs → IsUniqueId (set_status i st now hs)
  unfolding set_status
  set_status-IsUniqueId [] u = tt
  set_status-IsUniqueId (h ∷ hs) u =
      ground (arith, set_status-IsUniqueId hs u.1, find-set_status-none i h.id st now hs u.0)

  pub set_status-IsUniqueReference :
      (hs : List Header) → IsUniqueReference hs → IsUniqueReference (set_status i st now hs)
  unfolding set_status
  set_status-IsUniqueReference [] u = tt
  set_status-IsUniqueReference (h ∷ hs) u = ground (
    arith,
    set_status-IsUniqueReference hs u.1,
    find_reference-set_status-none i h.external_reference st now hs u.0,
  )

-- What holds of every row and of a new one holds after the new one is written over another.
pub replace-All :
    (P : Balance → Type 0) (s : GoString) (w : ℤ) (new : Balance) (bs : List Balance)
    → P new
    → All P bs
    → All P (replace s w new bs)
unfolding replace
replace-All P s w new [] p h = tt
replace-All P s w new (b ∷ bs) p h = elim (Bool-cases (Balances.is_at s w b)) [
  | inl t ↦ rw t (p, h.1)
  | inr t ↦ rw t (h.0, replace-All P s w new bs p h.1)
]
