-- ===== src/Base/Int64.antt =====
-- Go's int64 and Postgres' BIGINT: the first wraps, the second refuses.
use Prim.Native.Nat.{ℕ, ◌-◌, ◌%◌, ◌<◌, ◌≤◌}
use mathlib.Core.Path.{◌≡◌}
use mathlib.Core.Bool.{Bool, ◌&&◌}
use native.Mathlib.Omega.{arith}
use inventory_service.Base.Tests.{ltb, leb, if◌then◌else◌}
use inventory_service.Base.Int.{ℤ, pos, negsuc, pos_part, neg_part, ◌+ℤ◌}

-- 2 ^ 63 and 2 ^ 64
abbrev pub half_word : ℕ
half_word = 9223372036854775808

abbrev pub word : ℕ
word = 18446744073709551616

-- -2 ^ 63 <= a < 2 ^ 63
abbrev pub IsInt64 : ℤ → Type 0
IsInt64 a = (pos_part a < half_word) × (neg_part a ≤ half_word)

abbrev pub is_int64 : ℤ → Bool
is_int64 a = ltb (pos_part a) half_word && leb (neg_part a) half_word

-- The int64 with the two's complement bits of `a`.
unfoldable pub wrap64 : ℤ → ℤ
wrap64 (pos n) =
    let low = n % word in if ltb low half_word then pos low else negsuc (word - low - 1)
wrap64 (negsuc n) =
    let low = n % word in if ltb low half_word then negsuc low else pos (word - low - 1)

-- `a + b` on int64
unfoldable pub add64 : ℤ → ℤ → ℤ
unfolding wrap64
add64 a b = wrap64 (a +ℤ b)

pub wrap64-IsInt64 : (a : ℤ) → IsInt64 (wrap64 a)
unfolding wrap64
wrap64-IsInt64 (pos n) = ground arith
wrap64-IsInt64 (negsuc n) = ground arith

pub wrap64_of_IsInt64 : (a : ℤ) → IsInt64 a → wrap64 a ≡ a
unfolding wrap64
wrap64_of_IsInt64 (pos n) h = ground arith
wrap64_of_IsInt64 (negsuc n) h = ground arith
