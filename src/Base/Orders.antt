-- ===== src/Base/Orders.antt =====
-- The orders that the queries sort by: of texts, numbers, and of one column after another.
use mathlib.Core.Path.{◌≡◌, refl}
use mathlib.Core.Bool.{Bool, true, false}
use mathlib.Core.List.{[], ◌∷◌}
use native.Mathlib.Omega.{arith}
use inventory_service.Base.Tests.{ltb, if◌then◌else◌}
use inventory_service.Base.Text.{GoString, text_ltb}
use inventory_service.Base.Int.{ltb_ℤ}
use inventory_service.Base.Sort.{IsOrder}

text_ltb_asymmetric : (x y : GoString) → text_ltb x y ≡ true → text_ltb y x ≡ false
text_ltb_asymmetric [] [] h = refl
text_ltb_asymmetric [] (y ∷ ys) h = refl
text_ltb_asymmetric (x ∷ xs) [] h = cc
text_ltb_asymmetric (x ∷ xs) (y ∷ ys) h = ground (arith, text_ltb_asymmetric xs ys)

text_ltb_cotransitive :
    (x y z : GoString) → text_ltb x y ≡ false → text_ltb y z ≡ false → text_ltb x z ≡ false
text_ltb_cotransitive [] [] z h k = k
text_ltb_cotransitive [] (y ∷ ys) z h k = cc
text_ltb_cotransitive (x ∷ xs) [] [] h k = refl
text_ltb_cotransitive (x ∷ xs) [] (z ∷ zs) h k = cc
text_ltb_cotransitive (x ∷ xs) (y ∷ ys) [] h k = refl
text_ltb_cotransitive (x ∷ xs) (y ∷ ys) (z ∷ zs) h k =
    ground (arith, text_ltb_cotransitive xs ys zs)

pub text_ltb-IsOrder : IsOrder text_ltb
text_ltb-IsOrder = record { asymmetric = text_ltb_asymmetric; cotransitive = text_ltb_cotransitive }

pub ltb-IsOrder : IsOrder ltb
ltb-IsOrder = record {
  asymmetric = λ x y h. ground arith;
  cotransitive = λ x y z h k. ground arith;
}

pub ltb_ℤ-IsOrder : IsOrder ltb_ℤ
ltb_ℤ-IsOrder = record {
  asymmetric = λ x y h. ground arith;
  cotransitive = λ x y z h k. ground arith;
}

module _ {ℓ} {A : Type ℓ} where
  -- By the first column, and by the second where the first is the same.
  abbrev pub lexicographic : (A → A → Bool) → (A → A → Bool) → A → A → Bool
  lexicographic first second x y =
      if first x y then true else if first y x then false else second x y

  pub lexicographic-IsOrder :
      (first second : A → A → Bool)
      → IsOrder first
      → IsOrder second
      → IsOrder (lexicographic first second)
  lexicographic-IsOrder first second f s = record {
    asymmetric = λ x y h. ground (arith, f.asymmetric x y, f.asymmetric y x, s.asymmetric x y);
    cotransitive = λ x y z h k. ground (
      arith,
      f.asymmetric x z,
      f.cotransitive x y z,
      f.cotransitive z y x,
      f.cotransitive y z x,
      f.cotransitive x z y,
      f.cotransitive z x y,
      f.cotransitive y x z,
      s.cotransitive x y z,
    );
  }

  -- DESC
  pub flip-IsOrder : (before : A → A → Bool) → IsOrder before → IsOrder (λ x y. before y x)
  flip-IsOrder before o = record {
    asymmetric = λ x y h. o.asymmetric y x h;
    cotransitive = λ x y z h k. o.cotransitive z y x k h;
  }

  -- The order of a column.
  pub pull-IsOrder {κ} :
      {B : Type κ} (column : B → A) (before : A → A → Bool)
      → IsOrder before
      → IsOrder (λ x y. before (column x) (column y))
  pull-IsOrder column before o = record {
    asymmetric = λ x y h. o.asymmetric (column x) (column y) h;
    cotransitive = λ x y z h k. o.cotransitive (column x) (column y) (column z) h k;
  }
