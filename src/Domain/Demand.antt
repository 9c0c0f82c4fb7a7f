-- ===== src/Domain/Demand.antt =====
-- What AggregateLines keeps: one line to a SKU, and the demand for each.
use inventory_service.Base.{
  GoString, text_eq, ℤ, pos, negsuc, ◌≤ℤ◌, ◌+ℤ◌, add64, wrap64_of_IsInt64, IsInt64, int_laws, ◌≡◌,
  refl, sym, ap, ◌∙◌, Bool-cases, inl, inr, none, List, [], ◌∷◌, All, if◌then◌else◌, arith,
  add-zero_ℤ, zero-add_ℤ, false,
}
use inventory_service.Domain.Types.{Line}
use inventory_service.Domain.Aggregate.{aggregate_lines}
use inventory_service.Domain.Merge.{merge, merge_all, place_of, aggregate_lines-merge_all}

-- No two lines have the same SKU.
abbrev pub IsDistinct : List Line → Type 0
IsDistinct [] = Unit
IsDistinct (x ∷ xs) = (place_of x.sku_id xs ≡ none) × IsDistinct xs

place_of-merge :
    (s : GoString) (it : Line) (xs : List Line)
    → place_of s xs ≡ none
    → text_eq it.sku_id s ≡ false
    → place_of s (merge it xs) ≡ none
unfolding place_of merge
place_of-merge s it [] h n = ground arith
place_of-merge s it (x ∷ xs) h n = ground (arith, place_of-merge s it xs)

merge-IsDistinct : (it : Line) (xs : List Line) → IsDistinct xs → IsDistinct (merge it xs)
unfolding place_of merge
merge-IsDistinct it [] h = (refl, tt)
merge-IsDistinct it (x ∷ xs) h =
    ground (arith, merge-IsDistinct it xs h.1, place_of-merge x.sku_id it xs h.0)

-- The sum of the quantities, of one SKU and of all.
unfoldable pub demand : GoString → List Line → ℤ
demand s [] = pos 0
demand s (x ∷ xs) = (if text_eq x.sku_id s then x.quantity else pos 0) +ℤ demand s xs

unfoldable pub volume : List Line → ℤ
volume [] = pos 0
volume (x ∷ xs) = x.quantity +ℤ volume xs

abbrev pub IsNonNegative : Line → Type 0
IsNonNegative x = pos 0 ≤ℤ x.quantity

pub volume-nonneg : (xs : List Line) → All IsNonNegative xs → pos 0 ≤ℤ volume xs
unfolding volume
volume-nonneg [] h = omega arith
volume-nonneg (x ∷ xs) h = omega (int_laws, h.0, volume-nonneg xs h.1)

IsInt64-of_le : (a b : ℤ) → pos 0 ≤ℤ a → a ≤ℤ b → IsInt64 b → IsInt64 a
IsInt64-of_le (pos n) (pos k) p h i = ground arith
IsInt64-of_le (pos n) (negsuc k) p h i = ground arith
IsInt64-of_le (negsuc n) b p h i = absurd (ground arith)

-- What a merge does, if the sum of all quantities fits an int64.
module _ (it : Line) (nonneg : IsNonNegative it) where
  record IsMerged (xs ys : List Line) : Type 0 where
    demands : (s : GoString) → demand s ys ≡ demand s (it ∷ xs)
    volumes : volume ys ≡ volume (it ∷ xs)
    nonnegs : All IsNonNegative ys

  merge-IsMerged :
      (xs : List Line)
      → All IsNonNegative xs
      → IsInt64 (volume (it ∷ xs))
      → IsMerged xs (merge it xs)
  unfolding merge demand volume add64
  merge-IsMerged [] h i = record { demands = λ s. refl; volumes = refl; nonnegs = (nonneg, tt) }
  merge-IsMerged (x ∷ xs) h i =
      let rest_nonneg = volume-nonneg xs h.1 in
      let sum_fits =
        IsInt64-of_le (x.quantity +ℤ it.quantity) (volume (it ∷ x ∷ xs))
          (omega (int_laws, h.0, nonneg)) (omega (int_laws, rest_nonneg)) i in
      let rest_fits =
        IsInt64-of_le (volume (it ∷ xs)) (volume (it ∷ x ∷ xs))
          (omega (int_laws, nonneg, rest_nonneg)) (omega (int_laws, h.0)) i in
      let same = wrap64_of_IsInt64 (x.quantity +ℤ it.quantity) sum_fits in
      let rest = merge-IsMerged xs h.1 rest_fits in
      elim (Bool-cases (text_eq x.sku_id it.sku_id)) [
        | inl y ↦
            rw (y, same)
              (record {
                demands = λ s. grind int_laws;
                volumes = omega int_laws;
                nonnegs = (omega (int_laws, h.0, nonneg), h.1);
              })
        | inr n ↦ rw n (record {
          demands = λ s. grind (int_laws, rest.demands s);
          volumes = ap (λ v. x.quantity +ℤ v) rest.volumes ∙ omega int_laws;
          nonnegs = (h.0, rest.nonnegs);
        })
      ]

merge_all-IsDistinct : (items xs : List Line) → IsDistinct xs → IsDistinct (merge_all items xs)
unfolding merge_all
merge_all-IsDistinct [] xs h = h
merge_all-IsDistinct (it ∷ items) xs h =
    merge_all-IsDistinct items (merge it xs) (merge-IsDistinct it xs h)

merge_all-demand :
    (items xs : List Line) (s : GoString)
    → All IsNonNegative items
    → All IsNonNegative xs
    → IsInt64 (volume items +ℤ volume xs)
    → demand s (merge_all items xs) ≡ demand s items +ℤ demand s xs
unfolding merge_all demand volume
merge_all-demand [] xs s k h i = sym (zero-add_ℤ _)
merge_all-demand (it ∷ items) xs s k h i =
    let rest = volume-nonneg items k.1 in
    let here = volume-nonneg xs h in
    let fits =
      IsInt64-of_le (volume (it ∷ xs)) (volume (it ∷ items) +ℤ volume xs)
        (omega (int_laws, k.0, here)) (omega (int_laws, rest)) i in
    let merged = merge-IsMerged it k.0 xs h fits in
    let all_fit : IsInt64 (volume items +ℤ volume (merge it xs)) =
      IsInt64-of_le _ (volume (it ∷ items) +ℤ volume xs)
        (rw merged.volumes (omega (int_laws, k.0, here, rest))) (rw merged.volumes (omega int_laws))
        i in
    merge_all-demand items (merge it xs) s k.1 merged.nonnegs all_fit
    ∙ ap (λ d. demand s items +ℤ d) (merged.demands s)
    ∙ grind int_laws

-- AggregateLines on lines that ask for nothing negative, and together for no more than an int64
-- holds: no two lines of the result have the same SKU, and for every SKU they ask for as much as the
-- lines that were given.
pub aggregate_lines_exact :
    (items : List Line)
    → All IsNonNegative items
    → IsInt64 (volume items)
    → IsDistinct (aggregate_lines items)
      × ((s : GoString) → demand s (aggregate_lines items) ≡ demand s items)
unfolding volume demand
aggregate_lines_exact items k i = rw (aggregate_lines-merge_all items) (
  merge_all-IsDistinct items [] tt,
  (λ s.
      merge_all-demand items [] s k tt (rw (← add-zero_ℤ (volume items)) i)
      ∙ sym (add-zero_ℤ (demand s items))),
)
