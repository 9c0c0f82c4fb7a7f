-- ===== src/Lifecycle/Later.antt =====
-- A reservation against itself at a later time.
use inventory_service.Base.{GoString, ◌≡◌, refl, ◌∙◌, some, ◌⊎◌, inl, inr}
use inventory_service.Domain.Types.{Status, reserved, released, committed}
use inventory_service.Store.Rows.{Header}
use inventory_service.Store.Reservations.{find}
use inventory_service.Store.Database.{Db}
use inventory_service.Reservations.Reserve.{load_reservation_lines}

-- A status stays, or RESERVED becomes RELEASED or COMMITTED.
abbrev pub IsAhead : Status → Status → Type 0
IsAhead s t = (t ≡ s) ⊎ ((s ≡ reserved) × ((t ≡ released) ⊎ (t ≡ committed)))

-- The same reservation, at a later time.
pub record IsLater (h h' : Header) : Type 0 where
  pub id : h'.id ≡ h.id
  pub reference : h'.external_reference ≡ h.external_reference
  pub hash : h'.request_hash ≡ h.request_hash
  pub expires_at : h'.expires_at ≡ h.expires_at
  pub created_at : h'.created_at ≡ h.created_at
  pub status : IsAhead h.status h'.status

pub IsLater-refl : (h : Header) → IsLater h h
IsLater-refl h = record {
  id = refl;
  reference = refl;
  hash = refl;
  expires_at = refl;
  created_at = refl;
  status = inl refl;
}

pub IsAhead-trans : (r s t : Status) → IsAhead r s → IsAhead s t → IsAhead r t
IsAhead-trans r s t (inl e) k = rw (← e) k
IsAhead-trans r s t (inr (e, d)) (inl f) = inr (e, rw f d)
IsAhead-trans r s t (inr (e, d)) (inr (f, g)) = inr (e, g)

pub IsLater-trans : (h i j : Header) → IsLater h i → IsLater i j → IsLater h j
IsLater-trans h i j a b = record {
  id = b.id ∙ a.id;
  reference = b.reference ∙ a.reference;
  hash = b.hash ∙ a.hash;
  expires_at = b.expires_at ∙ a.expires_at;
  created_at = b.created_at ∙ a.created_at;
  status = IsAhead-trans _ _ _ a.status b.status;
}

-- A reservation of the first state is in the second, with the same lines.
pub record IsKept (id : GoString) (h : Header) (db db' : Db) : Type 0 where
  pub header : Header
  pub found : find id db'.reservations ≡ some header
  pub later : IsLater h header
  pub lines : load_reservation_lines db' id ≡ load_reservation_lines db id
