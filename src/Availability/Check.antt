-- ===== src/Availability/Check.antt =====
-- What the answers of CheckAvailability mean.
use inventory_service.Base.{
  GoString, ℤ, pos, ◌≤ℤ◌, ◌≡◌, refl, Bool, true, false, Bool-cases, none, List, [], ◌∷◌, All, arith,
  inl, inr,
}
use inventory_service.Domain.Types.{Line, Shortage}
use inventory_service.Domain.Errors.{Error, Result, ok, err, Result-cases}
use inventory_service.Store.Atp.{AtpMap}
use inventory_service.Availability.Service.{
  AvailabilityReader, CheckResult, checked_ids, fulfills, any_fulfills, base_of, sort_out, explain,
  check_availability, absent_from, look_up, fulfilled, unfulfilled,
}

abbrev pub IsShort : Shortage → Type 0
IsShort s = ¬ (s.requested ≤ℤ s.atp)

-- A basket whose lines all ask for something.
abbrev pub IsPositive : Line → Type 0
IsPositive it = ¬ (it.quantity ≤ℤ pos 0)

sort_out-IsShort :
    (m : AtpMap) (tracked : GoString → Bool) (items : List Line)
    → All IsShort (sort_out m tracked items).0
unfolding sort_out
sort_out-IsShort m tracked [] = tt
sort_out-IsShort m tracked (it ∷ items) = ground (arith, sort_out-IsShort m tracked items)

-- If nothing is sorted out, everything is covered.
sort_out-nil :
    (m : AtpMap) (tracked : GoString → Bool) (items : List Line)
    → (sort_out m tracked items).0 ≡ []
    → (sort_out m tracked items).1 ≡ []
    → fulfills m items ≡ true
unfolding sort_out fulfills
sort_out-nil m tracked [] h k = refl
sort_out-nil m tracked (it ∷ items) h k = ground (arith, sort_out-nil m tracked items)

fulfills_nothing :
    (it : Line) (items : List Line) {ids : List GoString}
    → checked_ids (it ∷ items) ≡ ok ids
    → fulfills (λ s. none) (it ∷ items) ≡ false
unfolding fulfills checked_ids
fulfills_nothing it items h = ground arith

-- If no warehouse has the basket, neither has the one that the shortages are counted against.
fulfills-base_of :
    (by_warehouse : ℤ → AtpMap) (active : List ℤ) (it : Line) (items : List Line)
    {ids : List GoString}
    → checked_ids (it ∷ items) ≡ ok ids
    → any_fulfills by_warehouse active (it ∷ items) ≡ false
    → fulfills (base_of by_warehouse active) (it ∷ items) ≡ false
unfolding any_fulfills base_of
fulfills-base_of by_warehouse [] it items {ids} c h = fulfills_nothing it items {ids = ids} c
fulfills-base_of by_warehouse (w ∷ ws) it items c h = ground arith

-- What a result says is never in doubt.
pub record IsExplained (r : CheckResult) : Type 0 where
  pub fulfilled_has_none : r.can_fulfill ≡ true → (r.shortages ≡ []) × (r.unknown_sku_ids ≡ [])
  pub unfulfilled_has_some :
      r.can_fulfill ≡ false → ¬ ((r.shortages ≡ []) × (r.unknown_sku_ids ≡ []))
  pub real : All IsShort r.shortages

-- CheckAvailability fails, says that the basket can be fulfilled because a warehouse has it, or sorts
-- out why it cannot be.
pub check_cases {ℓ} :
    (P : Result CheckResult → Type ℓ) (reader : AvailabilityReader) (items : List Line)
    → ((e : Error) → P (err e))
    → ((ids : List GoString) (by_warehouse : ℤ → AtpMap) (active : List ℤ)
        → checked_ids items ≡ ok ids
        → reader.read_balances ids ≡ ok (by_warehouse, active)
        → any_fulfills by_warehouse active items ≡ true
        → P (ok fulfilled))
    → ((ids : List GoString) (by_warehouse : ℤ → AtpMap) (active : List ℤ)
          (tracked : GoString → Bool)
        → checked_ids items ≡ ok ids
        → reader.read_balances ids ≡ ok (by_warehouse, active)
        → any_fulfills by_warehouse active items ≡ false
        → look_up reader (absent_from (base_of by_warehouse active) ids) ≡ ok tracked
        → P (ok (unfulfilled (sort_out (base_of by_warehouse active) tracked items))))
    → P (check_availability reader items)
unfolding check_availability explain
check_cases P reader items failed yes_case no_case = elim (Result-cases (checked_ids items)) [
  | inr (x, c) ↦ rw (c, check_availability) (failed x)
  | inl (ids, c) ↦
      rw (c, check_availability)
        (elim (Result-cases (reader.read_balances ids)) [
          | inr (x, b) ↦ rw b (failed x)
          | inl ((by_warehouse, active), b) ↦
              rw b (elim (Bool-cases (any_fulfills by_warehouse active items)) [
                | inl y ↦ rw y (yes_case ids by_warehouse active c b y)
                | inr n ↦
                    rw n
                      (elim (Result-cases
                        (look_up reader (absent_from (base_of by_warehouse active) ids))) [
                          | inr (x, l) ↦ rw l (failed x)
                          | inl (tracked, l) ↦
                              rw l (no_case ids by_warehouse active tracked c b n l)
                        ])
              ])
        ])
]

abbrev pub OfResult {ℓ} : (CheckResult → Type ℓ) → Result CheckResult → Type ℓ
OfResult P (ok r) = P r
OfResult P (err e) = Unit

-- Whatever the repository answers, CheckAvailability explains what it says of a basket of at least
-- one line: if the basket can be fulfilled there are no shortages and no unknown SKUs, if it cannot
-- there is one or the other, and every shortage asks for more than its ATP.
pub check_availability-IsExplained :
    (reader : AvailabilityReader) (it : Line) (items : List Line)
    → OfResult IsExplained (check_availability reader (it ∷ items))
check_availability-IsExplained reader it items =
    check_cases (OfResult IsExplained) reader (it ∷ items) (λ e. tt)
      (λ ids by_warehouse active c b y. record {
        fulfilled_has_none = λ _. (refl, refl);
        unfulfilled_has_some = λ no. cc no;
        real = tt;
      })
      λ ids by_warehouse active tracked c b n l.
        let base = base_of by_warehouse active in
        record {
          fulfilled_has_none = λ no. cc no;
          unfulfilled_has_some = λ _ p. cc (
            fulfills-base_of by_warehouse active it items {ids = ids} c n,
            sort_out-nil base tracked (it ∷ items) p.0 p.1,
          );
          real = sort_out-IsShort base tracked (it ∷ items);
        }
