-- ===== src/Domain/Order.antt =====
-- CanonicalHash sorts the lines, so that their order does not show.
use mathlib.Core.List.{Permᴰ}
use inventory_service.Base.{
  GoString, text_ltb, text_ltb-IsOrder, pull-IsOrder, IsOrder, sort, place, ◌≡◌, refl, subst, sym,
  ap, ◌∙◌, Bool, true, false, Bool-cases, List, [], ◌∷◌, arith, inl, inr, none,
}
use inventory_service.Domain.Types.{Line}
use inventory_service.Domain.Hash.{place_line, sort_lines}
use inventory_service.Domain.Merge.{place_of}
use inventory_service.Domain.Demand.{IsDistinct}

abbrev pub line_before : Line → Line → Bool
line_before a b = text_ltb a.sku_id b.sku_id

place_line_lem : (it : Line) (xs : List Line) → place_line it xs ≡ place line_before it xs
unfolding place_line place
place_line_lem it [] = refl
place_line_lem it (x ∷ xs) = rw (place_line_lem it xs)

pub sort_lines_lem : (xs : List Line) → sort_lines xs ≡ sort line_before xs
unfolding sort_lines sort
sort_lines_lem [] = refl
sort_lines_lem (x ∷ xs) = rw (sort_lines_lem xs) (place_line_lem x (sort line_before xs))

-- Byte order is total.
text_ltb_total : (x y : GoString) → text_ltb x y ≡ false → text_ltb y x ≡ false → x ≡ y
text_ltb_total [] [] h k = refl
text_ltb_total [] (y ∷ ys) h k = cc
text_ltb_total (x ∷ xs) [] h k = cc
text_ltb_total (x ∷ xs) (y ∷ ys) h k = ground (arith, text_ltb_total xs ys)

line_before-IsOrder : IsOrder line_before
line_before-IsOrder = pull-IsOrder (λ (l : Line). l.sku_id) text_ltb text_ltb-IsOrder

-- Two lines of different SKUs can be placed in either order.
place_ordered :
    (a b : Line) (xs : List Line)
    → line_before a b ≡ true
    → line_before b a ≡ false
    → place line_before a (place line_before b xs) ≡ place line_before b (place line_before a xs)
unfolding place
place_ordered a b [] lt ge = rw (lt, ge)
place_ordered a b (x ∷ xs) lt ge = elim (Bool-cases (line_before x a)) [
  | inl xa ↦ elim (Bool-cases (line_before x b)) [
    | inl xb ↦ rw (xa, xb, xa) (ap (◌∷◌ x) (place_ordered a b xs lt ge))
    | inr xb ↦ absurd (let no = line_before-IsOrder.cotransitive x b a xb ge in cc)
  ]
  | inr xa ↦ elim (Bool-cases (line_before x b)) [
    | inl xb ↦ rw (xa, lt, xb, xa)
    | inr xb ↦ rw (xa, xb, ge, lt)
  ]
]

place_swap :
    (a b : Line) (xs : List Line)
    → ¬ (a.sku_id ≡ b.sku_id)
    → place line_before a (place line_before b xs) ≡ place line_before b (place line_before a xs)
place_swap a b xs n = elim (Bool-cases (line_before a b)) [
  | inl lt ↦ place_ordered a b xs lt (line_before-IsOrder.asymmetric a b lt)
  | inr ge ↦ elim (Bool-cases (line_before b a)) [
    | inl lt ↦ sym (place_ordered b a xs lt ge)
    | inr le ↦ absurd (n (text_ltb_total a.sku_id b.sku_id ge le))
  ]
]

place_of-Permᴰ :
    (s : GoString) {xs ys : List Line} → Permᴰ xs ys → place_of s xs ≡ none → place_of s ys ≡ none
unfolding place_of
place_of-Permᴰ s Permᴰ.nil h = h
place_of-Permᴰ s (Permᴰ.cons {a} {b} {l₁} {l₂} e p) h =
    ground (arith, ap (λ (l : Line). l.sku_id) e, place_of-Permᴰ s p)
place_of-Permᴰ s (Permᴰ.swap {a} {b} {a'} {b'} {l} e f) h =
    ground (arith, ap (λ (l : Line). l.sku_id) e, ap (λ (l : Line). l.sku_id) f)
place_of-Permᴰ s (Permᴰ.trans p q) h = place_of-Permᴰ s q (place_of-Permᴰ s p h)

IsDistinct-swap : (a b : Line) (l : List Line) → IsDistinct (a ∷ b ∷ l) → IsDistinct (b ∷ a ∷ l)
unfolding place_of
IsDistinct-swap a b l d = ground arith

distinct_ne : (a b : Line) (l : List Line) → IsDistinct (a ∷ b ∷ l) → ¬ (a.sku_id ≡ b.sku_id)
unfolding place_of
distinct_ne a b l d e = ground arith

IsDistinct-Permᴰ : {xs ys : List Line} → Permᴰ xs ys → IsDistinct xs → IsDistinct ys
unfolding place_of
IsDistinct-Permᴰ Permᴰ.nil d = d
IsDistinct-Permᴰ (Permᴰ.cons {a} {b} {l₁} {l₂} e p) d = (
  subst (λ s. place_of s l₂ ≡ none) (ap (λ (l : Line). l.sku_id) e) (place_of-Permᴰ a.sku_id p d.0),
  IsDistinct-Permᴰ p d.1,
)
IsDistinct-Permᴰ (Permᴰ.swap {a} {b} {a'} {b'} {l} e f) d =
    subst (λ y. IsDistinct (y ∷ b' ∷ l)) f
      (subst (λ y. IsDistinct (b ∷ y ∷ l)) e (IsDistinct-swap a b l d))
IsDistinct-Permᴰ (Permᴰ.trans p q) d = IsDistinct-Permᴰ q (IsDistinct-Permᴰ p d)

pub sort-Permᴰ :
    {xs ys : List Line} → Permᴰ xs ys → IsDistinct xs → sort line_before xs ≡ sort line_before ys
unfolding sort place_of
sort-Permᴰ Permᴰ.nil d = refl
sort-Permᴰ (Permᴰ.cons {a} {b} {l₁} {l₂} e p) d = rw (e, sort-Permᴰ p d.1)
sort-Permᴰ (Permᴰ.swap {a} {b} {a'} {b'} {l} e f) d =
    rw (← e, ← f) (place_swap a b (sort line_before l) (distinct_ne a b l d))
sort-Permᴰ (Permᴰ.trans p q) d = sort-Permᴰ p d ∙ sort-Permᴰ q (IsDistinct-Permᴰ p d)
