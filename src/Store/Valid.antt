-- ===== src/Store/Valid.antt =====
-- What the schema guarantees of balances and movements at every commit.
use inventory_service.Base.{GoString, ℤ, pos, ◌≤ℤ◌, ◌≡◌, none, some, List, [], ◌∷◌, All, arith}
use inventory_service.Domain.Errors.{ok}
use inventory_service.Store.Rows.{Balance, Movement, check_balance}
use inventory_service.Store.Balances.{find, replace, IsKeyed}
use inventory_service.Store.Movements.{find_command}
use inventory_service.Store.Database.{Db}

-- The CHECKs of a balance: nothing is negative, and no more is reserved than is on hand.
abbrev pub IsChecked : Balance → Type 0
IsChecked b =
    (pos 0 ≤ℤ b.on_hand)
    × (pos 0 ≤ℤ b.reserved)
    × (pos 0 ≤ℤ b.safety_stock)
    × (b.reserved ≤ℤ b.on_hand)

-- `command_id` is UNIQUE.
abbrev pub IsUnique : List Movement → Type 0
IsUnique [] = Unit
IsUnique (m ∷ ms) = (find_command m.command_id ms ≡ none) × IsUnique ms

pub record IsStocked (db : Db) : Type 0 where
  pub checked : All IsChecked db.balances
  pub keyed : IsKeyed db.balances
  pub unique : IsUnique db.movements

-- A row that passes the CHECKs is stored as it is.
pub check_balance-eq-ok :
    (b : Balance) {b' : Balance} → check_balance b ≡ ok b' → (b' ≡ b) × IsChecked b
unfolding check_balance
check_balance-eq-ok b h = ground arith

pub find-IsChecked :
    (s : GoString) (w : ℤ) {b : Balance} (bs : List Balance)
    → All IsChecked bs
    → find s w bs ≡ some b
    → IsChecked b
unfolding find
find-IsChecked s w [] h e = cc
find-IsChecked s w {b} (c ∷ bs) h e = ground (arith, find-IsChecked s w {b = b} bs h.1)

pub replace-IsChecked :
    (s : GoString) (w : ℤ) (new : Balance) (bs : List Balance)
    → IsChecked new
    → All IsChecked bs
    → All IsChecked (replace s w new bs)
unfolding replace
replace-IsChecked s w new [] k h = tt
replace-IsChecked s w new (c ∷ bs) k h = ground (arith, replace-IsChecked s w new bs k h.1)
