-- ===== src/Store/Balances.antt =====
-- inventory_balances: a list of rows under the primary key (sku_id, warehouse_id).
use inventory_service.Base.{
  ℕ, GoString, text_eq, ℤ, int_eq, ◌≡◌, refl, Bool, ◌&&◌, if◌then◌else◌, Option, none, some, List,
  [], ◌∷◌, arith, Option-cases, inl, inr,
}
use inventory_service.Domain.Errors.{Error, Result, ok, err, Result-cases, ◌>>=◌}
use inventory_service.Store.Rows.{Balance}

abbrev pub is_at : GoString → ℤ → Balance → Bool
is_at s w b = text_eq b.sku_id s && int_eq b.warehouse_id w

-- `WHERE sku_id = s AND warehouse_id = w`
unfoldable pub find : GoString → ℤ → List Balance → Option Balance
find s w [] = none
find s w (b ∷ bs) = if is_at s w b then some b else find s w bs

unfoldable pub replace : GoString → ℤ → Balance → List Balance → List Balance
replace s w new [] = []
replace s w new (b ∷ bs) = if is_at s w b then new ∷ bs else b ∷ replace s w new bs

-- `UPDATE inventory_balances SET … WHERE sku_id = s AND warehouse_id = w`, with RowsAffected
unfoldable pub update :
    (Balance → Result Balance) → GoString → ℤ → List Balance → Result (List Balance × ℕ)
update set s w bs = elim (find s w bs) [
  | none ↦ ok (bs, 0)
  | some b ↦ do b' ← set b; ok (replace s w b' bs, 1)
]

-- No two rows have the same key.
abbrev pub IsKeyed : List Balance → Type 0
IsKeyed [] = Unit
IsKeyed (b ∷ bs) = (find b.sku_id b.warehouse_id bs ≡ none) × IsKeyed bs

-- A row under the key that it is found by.
abbrev pub HasKey : GoString → ℤ → Balance → Type 0
HasKey s w b = (b.sku_id ≡ s) × (b.warehouse_id ≡ w)

pub find-HasKey :
    (s : GoString) (w : ℤ) {b : Balance} (bs : List Balance) → find s w bs ≡ some b → HasKey s w b
unfolding find
find-HasKey s w [] h = cc
find-HasKey s w {b} (c ∷ bs) h = ground (arith, find-HasKey s w {b = b} bs)

pub find-replace_self :
    (s : GoString) (w : ℤ) (new : Balance) {b : Balance} (bs : List Balance)
    → HasKey s w new
    → find s w bs ≡ some b
    → find s w (replace s w new bs) ≡ some new
unfolding find replace
find-replace_self s w new [] k h = cc
find-replace_self s w new {b} (c ∷ bs) k h = ground (arith, find-replace_self s w new {b = b} bs k)

pub find-replace_ne :
    (s : GoString) (w : ℤ) (t : GoString) (v : ℤ) (new : Balance) (bs : List Balance)
    → HasKey s w new
    → ((t ≡ s) × (v ≡ w) → ⊥)
    → find t v (replace s w new bs) ≡ find t v bs
unfolding find replace
find-replace_ne s w t v new [] k h = refl
find-replace_ne s w t v new (c ∷ bs) k h = ground (arith, find-replace_ne s w t v new bs k h)

-- A write takes no row away.
pub find-replace-ne-none :
    (s : GoString) (w : ℤ) (t : GoString) (v : ℤ) (new : Balance) (bs : List Balance)
    → HasKey s w new
    → find t v (replace s w new bs) ≡ none
    → find t v bs ≡ none
unfolding find replace
find-replace-ne-none s w t v new [] k h = refl
find-replace-ne-none s w t v new (c ∷ bs) k h =
    ground (arith, find-replace-ne-none s w t v new bs k)

pub replace-IsKeyed :
    (s : GoString) (w : ℤ) (new : Balance) (bs : List Balance)
    → HasKey s w new
    → IsKeyed bs
    → IsKeyed (replace s w new bs)
unfolding find replace
replace-IsKeyed s w new [] k h = tt
replace-IsKeyed s w new (c ∷ bs) k h =
    ground (
      arith,
      replace-IsKeyed s w new bs k h.1,
      find-replace_ne s w c.sku_id c.warehouse_id new bs k,
    )

-- An UPDATE by key that was accepted: of no row, or of the row that the key finds.
pub update_cases {ℓ} :
    (P : Result (List Balance × ℕ) → Type ℓ) (set : Balance → Result Balance) (s : GoString) (w : ℤ)
    (bs : List Balance)
    → ((e : Error) → P (err e))
    → (find s w bs ≡ none → P (ok (bs, 0)))
    → ((b b' : Balance) → find s w bs ≡ some b → set b ≡ ok b' → P (ok (replace s w b' bs, 1)))
    → P (update set s w bs)
unfolding update
update_cases P set s w bs failed absent found = elim (Option-cases (find s w bs)) [
  | inl f ↦ rw (f, update) (absent f)
  | inr (b, f) ↦
      rw (f, update)
        (elim (Result-cases (set b)) [
          | inl (b', e) ↦ rw (e, update) (found b b' f e)
          | inr (e, x) ↦ rw (x, update) (failed e)
        ])
]
