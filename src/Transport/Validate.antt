-- ===== src/Transport/Validate.antt =====
-- internal/grpc/v1/validate.go: the regular expressions, each a class of ASCII bytes and a length.
use inventory_service.Base.{
  ℕ, GoString, leb, ◌==◌, Bool, true, ◌&&◌, ◌||◌, if◌then◌else◌, [], ◌∷◌, length, false,
}

unfoldable pub is_alnum : ℕ → Bool
is_alnum c = (leb 65 c && leb c 90) || (leb 97 c && leb c 122) || (leb 48 c && leb c 57)

-- `^[…]{least,most}$`
unfoldable pub in_class : (ℕ → Bool) → GoString → Bool
in_class p [] = true
in_class p (c ∷ cs) = if p c then in_class p cs else false

abbrev pub matches_class : (ℕ → Bool) → ℕ → ℕ → GoString → Bool
matches_class p least most s = in_class p s && leb least (length s) && leb (length s) most

-- skuIDRe: [A-Za-z0-9._-]{1,64}
unfoldable pub valid_sku_id : GoString → Bool
valid_sku_id = matches_class (λ c. is_alnum c || c == 46 || c == 95 || c == 45) 1 64

-- reservationIDRe: [A-Za-z0-9_.:-]{1,186}
unfoldable pub valid_reservation_id : GoString → Bool
valid_reservation_id =
    matches_class (λ c. is_alnum c || c == 95 || c == 46 || c == 58 || c == 45) 1 186

-- releaseReasonRe: [A-Za-z0-9_.-]{0,64}
unfoldable pub valid_release_reason : GoString → Bool
valid_release_reason = matches_class (λ c. is_alnum c || c == 95 || c == 46 || c == 45) 0 64

-- destinationRegionRe: [A-Za-z0-9_-]{0,64}
unfoldable pub valid_destination_region : GoString → Bool
valid_destination_region = matches_class (λ c. is_alnum c || c == 95 || c == 45) 0 64
