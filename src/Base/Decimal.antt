-- ===== src/Base/Decimal.antt =====
-- strconv.ParseInt(s, 10, 64), which is also strconv.Atoi, as an int has 64 bits.
use Prim.Native.Nat.{ℕ, ◌+◌, ◌-◌, ◌*◌}
use mathlib.Core.Bool.{Bool, ◌&&◌}
use mathlib.Core.Option.{Option, none, some}
use mathlib.Core.List.{[], ◌∷◌}
use inventory_service.Base.Tests.{if◌then◌else◌, leb, ltb, ◌==◌}
use inventory_service.Base.Text.{GoString}
use inventory_service.Base.Int.{ℤ, pos, negate}
use inventory_service.Base.Int64.{half_word}

unfoldable pub is_digit : ℕ → Bool
is_digit c = leb 48 c && leb c 57

-- The digits from left to right, after those that make `n`.
unfoldable pub parse_digits : GoString → ℕ → Option ℕ
parse_digits [] n = some n
parse_digits (c ∷ cs) n =
    let rest = parse_digits cs (n * 10 + (c - 48)) in if is_digit c then rest else none

-- At least one digit.
unfoldable pub parse_unsigned : GoString → Option ℕ
parse_unsigned [] = none
parse_unsigned (c ∷ cs) = parse_digits (c ∷ cs) 0

-- ErrRange is `none` as well.
unfoldable pub positive : Option ℕ → Option ℤ
positive none = none
positive (some n) = if ltb n half_word then some (pos n) else none

unfoldable pub negative : Option ℕ → Option ℤ
negative none = none
negative (some n) = if leb n half_word then some (negate (pos n)) else none

-- An optional sign, then the digits.
unfoldable pub parse_int : GoString → Option ℤ
unfolding parse_unsigned parse_digits is_digit positive negative
parse_int [] = none
parse_int (c ∷ cs) =
    if c == 45
    then negative (parse_unsigned cs)
    else if c == 43
    then positive (parse_unsigned cs)
    else positive (parse_unsigned (c ∷ cs))
