-- ===== src/Domain/Hash.antt =====
-- CanonicalHash of internal/core/domain/reservation.go. SHA-256 in hexadecimal is a parameter.
use inventory_service.Base.{
  ℕ, zero, suc, ◌+◌, ◌/◌, ◌%◌, GoString, codes, text_ltb, ℤ, pos, negsuc, if◌then◌else◌, ltb, List,
  [], ◌∷◌, ◌++◌,
}
use inventory_service.Domain.Types.{Line}

-- sort.Slice by SKUID. On distinct SKUs every sort has this result.
unfoldable pub place_line : Line → List Line → List Line
place_line it [] = it ∷ []
place_line it (x ∷ xs) = if text_ltb x.sku_id it.sku_id then x ∷ place_line it xs else it ∷ x ∷ xs

unfoldable pub sort_lines : List Line → List Line
sort_lines [] = []
sort_lines (it ∷ items) = place_line it (sort_lines items)

-- The decimal digits of a number, as strconv writes them; the first argument bounds how many.
unfoldable pub digits : ℕ → ℕ → GoString
digits zero n = []
digits (suc f) n =
    let rest = digits f (n / 10) in if ltb n 10 then (48 + n) ∷ [] else rest ++ (48 + n % 10) ∷ []

-- strconv.FormatInt(a, 10). An int64 has at most 19 digits.
unfoldable pub format_int : ℤ → GoString
format_int (pos n) = digits 19 n
format_int (negsuc n) = codes "-" ++ digits 19 (suc n)

unfoldable pub encode_lines : List Line → GoString
encode_lines [] = []
encode_lines (it ∷ items) =
    it.sku_id ++ codes ":" ++ format_int it.quantity ++ codes "|" ++ encode_lines items

-- What is hashed.
unfoldable pub canonical_text : List Line → GoString → GoString
canonical_text items region = encode_lines (sort_lines items) ++ codes "dest:" ++ region

unfoldable pub canonical_hash : (GoString → GoString) → List Line → GoString → GoString
canonical_hash sha256_hex items region = sha256_hex (canonical_text items region)
