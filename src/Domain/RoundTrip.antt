-- ===== src/Domain/RoundTrip.antt =====
-- What strconv.FormatInt writes, strconv.ParseInt reads.
use inventory_service.Base.{
  ℕ, zero, suc, ◌+◌, ◌/◌, ◌%◌, ◌^◌, ◌<◌, ◌≡◌, refl, ◌∙◌, GoString, ℤ, pos, negsuc, IsInt64,
  Bool-cases, ltb, some, true, ◌-ℤ◌, [], ◌∷◌, ◌++◌, arith, inl, inr,
}
use mathlib.Core.List.{append_assoc, append-nil}
use inventory_service.Domain.Hash.{digits, format_int}
use inventory_service.Base.{is_digit, parse_digits, parse_unsigned, parse_int}

below : (f n : ℕ) → n < 10 ^ suc f → n / 10 < 10 ^ f
below f n h = omega arith

parse_digits-digits :
    (f n : ℕ) (rest : GoString)
    → n < 10 ^ f
    → parse_digits (digits f n ++ rest) 0 ≡ parse_digits rest n
unfolding parse_digits digits is_digit
parse_digits-digits zero n rest h = ground arith
parse_digits-digits (suc f) n rest h = elim (Bool-cases (ltb n 10)) [
  | inl t ↦ rw t (ground arith)
  | inr t ↦
      rw (t, append_assoc (digits f (n / 10)) ((48 + n % 10) ∷ []) rest)
        (parse_digits-digits f (n / 10) ((48 + n % 10) ∷ rest) (below f n h) ∙ ground arith)
]

-- A number is written with a digit in front.
head_digit :
    (f n : ℕ) → n < 10 ^ suc f → (c : ℕ) × (cs : GoString) × (digits (suc f) n ≡ c ∷ cs) × (47 < c)
unfolding digits
head_digit zero n h = let t : ltb n 10 ≡ true = ground arith in (48 + n, [], rw t, omega arith)
head_digit (suc f) n h = elim (Bool-cases (ltb n 10)) [
  | inl t ↦ (48 + n, [], rw t, omega arith)
  | inr t ↦
      let (c, cs, e, d) = head_digit f (n / 10) (below (suc f) n h) in
      (c, cs ++ (48 + n % 10) ∷ [], rw (t, e), d)
]

parse_digits-nil : (n : ℕ) → parse_digits [] n ≡ some n
unfolding parse_digits
parse_digits-nil n = refl

parse_unsigned-digits : (f n : ℕ) → n < 10 ^ suc f → parse_unsigned (digits (suc f) n) ≡ some n
unfolding parse_unsigned
parse_unsigned-digits f n h =
    let (c, cs, e, d) = head_digit f n h in
    let whole : parse_digits (digits (suc f) n ++ []) 0 ≡ parse_digits [] n =
      parse_digits-digits (suc f) n [] h in
    rw (e, parse_unsigned)
      (rw (← e) (rw (append-nil (digits (suc f) n)) at whole ∙ parse_digits-nil n))

-- Every int64 that is written in decimal is read back as itself.
pub parse_int-format_int : (a : ℤ) → IsInt64 a → parse_int (format_int a) ≡ some a
unfolding parse_int format_int ◌-ℤ◌
parse_int-format_int (pos n) h =
    let (c, cs, e, d) = head_digit 18 n (omega arith) in
    let read = parse_unsigned-digits 18 n (omega arith) in
    rw e (let read' = rw e at read in ground arith)
parse_int-format_int (negsuc n) h =
    rw (parse_unsigned-digits 18 (suc n) (omega arith), parse_int) (ground arith)
