-- ===== src/Domain/Merge.antt =====
-- AggregateLines against a fold without an index.
use inventory_service.Base.{
  ℕ, zero, suc, GoString, text_eq, add64, ◌≡◌, refl, sym, ap, ◌∙◌, Option, Option-cases, inl, inr,
  none, some, List, [], ◌∷◌, ◌++◌, length, if◌then◌else◌, arith,
}
use inventory_service.Domain.Types.{Line}
use inventory_service.Domain.Aggregate.{
  Aggregation, add_at, aggregate, aggregate_all, aggregate_lines,
}

-- A line added to the line of its SKU, or put at the end.
unfoldable pub merge : Line → List Line → List Line
merge it [] = it ∷ []
merge it (x ∷ xs) =
    if text_eq x.sku_id it.sku_id
    then record x { quantity = add64 x.quantity it.quantity } ∷ xs
    else x ∷ merge it xs

unfoldable pub merge_all : List Line → List Line → List Line
merge_all [] out = out
merge_all (it ∷ items) out = merge_all items (merge it out)

abbrev pub next_place : Option ℕ → Option ℕ
next_place none = none
next_place (some i) = some (suc i)

-- The place of a SKU's line.
unfoldable pub place_of : GoString → List Line → Option ℕ
place_of s [] = none
place_of s (x ∷ xs) = if text_eq x.sku_id s then some 0 else next_place (place_of s xs)

pub add_at-place_of :
    (it : Line) (xs : List Line) (i : ℕ)
    → place_of it.sku_id xs ≡ some i
    → add_at i it xs ≡ merge it xs
unfolding add_at place_of merge
add_at-place_of it [] i h = absurd (cc h)
add_at-place_of it (x ∷ xs) zero h = ground (arith, add_at-place_of it xs)
add_at-place_of it (x ∷ xs) (suc i) h = ground (arith, add_at-place_of it xs i)

pub append-merge :
    (it : Line) (xs : List Line) → place_of it.sku_id xs ≡ none → xs ++ it ∷ [] ≡ merge it xs
unfolding place_of merge
append-merge it [] h = refl
append-merge it (x ∷ xs) h = ground (arith, append-merge it xs)

-- The index stays the place of each line.
pub place_of-append :
    (s : GoString) (it : Line) (xs : List Line)
    → place_of it.sku_id xs ≡ none
    → place_of s (xs ++ it ∷ []) ≡ (if text_eq it.sku_id s then some (length xs) else place_of s xs)
unfolding place_of
place_of-append s it [] h = refl
place_of-append s it (x ∷ xs) h = ground (arith, place_of-append s it xs)

pub place_of-add_at :
    (s : GoString) (i : ℕ) (it : Line) (xs : List Line)
    → place_of s (add_at i it xs) ≡ place_of s xs
unfolding place_of add_at
place_of-add_at s i it [] = refl
place_of-add_at s zero it (x ∷ xs) = refl
place_of-add_at s (suc i) it (x ∷ xs) = ground (arith, place_of-add_at s i it xs)

pub aggregate-merge :
    (it : Line) (a : Aggregation)
    → ((s : GoString) → a.index s ≡ place_of s a.out)
    → ((aggregate it a).out ≡ merge it a.out)
      × ((s : GoString) → (aggregate it a).index s ≡ place_of s (aggregate it a).out)
unfolding aggregate
aggregate-merge it a h = elim (Option-cases (a.index it.sku_id)) [
  | inl n ↦
      let new : place_of it.sku_id a.out ≡ none = sym (h it.sku_id) ∙ n in
      rw (n, aggregate)
        (
          append-merge it a.out new,
          (λ s.
              ap (λ o. if text_eq it.sku_id s then some (length a.out) else o) (h s)
              ∙ sym (place_of-append s it a.out new)),
        )
  | inr (i, f) ↦
      let place : place_of it.sku_id a.out ≡ some i = sym (h it.sku_id) ∙ f in
      rw (f, aggregate)
        (add_at-place_of it a.out i place, (λ s. h s ∙ sym (place_of-add_at s i it a.out)))
]

-- The loop with its index is the fold of merges.
pub aggregate_all-merge_all :
    (items : List Line) (a : Aggregation)
    → ((s : GoString) → a.index s ≡ place_of s a.out)
    → (aggregate_all items a).out ≡ merge_all items a.out
unfolding aggregate_all merge_all
aggregate_all-merge_all [] a h = refl
aggregate_all-merge_all (it ∷ items) a h =
    let (same, kept) = aggregate-merge it a h in
    aggregate_all-merge_all items (aggregate it a) kept ∙ ap (merge_all items) same

-- AggregateLines with its index is a fold that adds each line to the line of its SKU, or puts it at
-- the end.
pub aggregate_lines-merge_all : (items : List Line) → aggregate_lines items ≡ merge_all items []
unfolding aggregate_lines place_of
aggregate_lines-merge_all items = aggregate_all-merge_all items _ (λ s. refl)
