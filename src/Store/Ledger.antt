-- ===== src/Store/Ledger.antt =====
-- The ledger against the balances: for one SKU in one warehouse, what the movements add up to.
use inventory_service.Base.{
  GoString, text_eq, ℤ, pos, ◌+ℤ◌, negate, int_eq, ◌&&◌, if◌then◌else◌, ◌≡◌, Option, none, some,
  List, ◌∷◌, int_laws, ap, pos_part, neg_part,
}
use inventory_service.Store.Rows.{Balance, Movement}
use inventory_service.Store.Balances.{find, replace, HasKey, find-replace_self, find-replace_ne}
use inventory_service.Store.Movements.{ledger_on_hand, ledger_reserved}
use inventory_service.Store.Database.{Db}

abbrev pub on_hand_of : Option Balance → ℤ
on_hand_of none = pos 0
on_hand_of (some b) = b.on_hand

abbrev pub reserved_of : Option Balance → ℤ
reserved_of none = pos 0
reserved_of (some b) = b.reserved

-- Two changes of a balance and a sum, one after the other.
changes_chain : (a b c p q r : ℤ) → b +ℤ p ≡ a +ℤ q → c +ℤ q ≡ b +ℤ r → c +ℤ p ≡ a +ℤ r
changes_chain a b c p q r h k =
    omega (int_laws, ap pos_part h, ap neg_part h, ap pos_part k, ap neg_part k)

module _ (s : GoString) (w : ℤ) where
  abbrev pub on_hand_at : List Balance → ℤ
  on_hand_at bs = on_hand_of (find s w bs)

  abbrev pub reserved_at : List Balance → ℤ
  reserved_at bs = reserved_of (find s w bs)

  -- Between two states the balance and the sum of the ledger's deltas have changed by the same
  -- amount, for on_hand and for reserved.
  pub record IsLedgered (db db' : Db) : Type 0 where
    pub on_hand :
        on_hand_at db'.balances +ℤ ledger_on_hand s w db.movements
        ≡ on_hand_at db.balances +ℤ ledger_on_hand s w db'.movements
    pub reserved :
        reserved_at db'.balances +ℤ ledger_reserved s w db.movements
        ≡ reserved_at db.balances +ℤ ledger_reserved s w db'.movements

  pub IsLedgered-refl : (db : Db) → IsLedgered db db
  IsLedgered-refl db = omega int_laws

  pub IsLedgered-trans : (a b c : Db) → IsLedgered a b → IsLedgered b c → IsLedgered a c
  IsLedgered-trans a b c h k = record {
    on_hand = changes_chain _ _ _ _ _ _ h.on_hand k.on_hand;
    reserved = changes_chain _ _ _ _ _ _ h.reserved k.reserved;
  }

  -- The amount that a write to the row of (t, v) has to move at (s, w).
  abbrev pub moved : GoString → ℤ → ℤ → ℤ
  moved t v delta = if text_eq t s && int_eq v w then delta else pos 0

  pub moved-negate : (t : GoString) (v q : ℤ) → moved t v (negate q) ≡ negate (moved t v q)
  moved-negate t v q = grind int_laws

  pub on_hand_at-replace :
      (t : GoString) (v : ℤ) (b new : Balance) (delta : ℤ) (bs : List Balance)
      → find t v bs ≡ some b
      → HasKey t v new
      → new.on_hand ≡ b.on_hand +ℤ delta
      → on_hand_at (replace t v new bs) ≡ on_hand_at bs +ℤ moved t v delta
  on_hand_at-replace t v b new delta bs f k e =
      grind (int_laws, find-replace_self t v new {b = b} bs k f, find-replace_ne t v s w new bs k)

  pub reserved_at-replace :
      (t : GoString) (v : ℤ) (b new : Balance) (delta : ℤ) (bs : List Balance)
      → find t v bs ≡ some b
      → HasKey t v new
      → new.reserved ≡ b.reserved +ℤ delta
      → reserved_at (replace t v new bs) ≡ reserved_at bs +ℤ moved t v delta
  reserved_at-replace t v b new delta bs f k e =
      grind (int_laws, find-replace_self t v new {b = b} bs k f, find-replace_ne t v s w new bs k)

  -- One movement, with the change of the balance that it states.
  pub IsLedgered-step :
      (m : Movement) (db db' : Db)
      → db'.movements ≡ m ∷ db.movements
      → on_hand_at db'.balances
        ≡ on_hand_at db.balances +ℤ moved m.sku_id m.warehouse_id m.on_hand_delta
      → reserved_at db'.balances
        ≡ reserved_at db.balances +ℤ moved m.sku_id m.warehouse_id m.reserved_delta
      → IsLedgered db db'
  unfolding ledger_on_hand ledger_reserved
  IsLedgered-step m db db' e eo er = record {
    on_hand = rw (e, eo, ledger_on_hand) (omega int_laws);
    reserved = rw (e, er, ledger_reserved) (omega int_laws);
  }
