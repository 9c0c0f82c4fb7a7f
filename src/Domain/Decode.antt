-- ===== src/Domain/Decode.antt =====
-- The text that CanonicalHash digests can be read back, where no SKU holds a colon and the region
-- holds no bar.
use mathlib.Core.List.{append_assoc}
use inventory_service.Base.{
  ℕ, zero, suc, ◌/◌, ◌<◌, ◌==◌, ltb, GoString, codes, ℤ, pos, negsuc, IsInt64, ◌≡◌, refl, false,
  if◌then◌else◌, Bool-cases, Option, none, some, List, [], ◌∷◌, ◌++◌, length, All, arith, inl, inr,
  parse_int,
}
use inventory_service.Domain.Types.{Line}
use inventory_service.Domain.Hash.{digits, format_int, encode_lines}
use inventory_service.Domain.RoundTrip.{parse_int-format_int}

-- No byte of a text is `k`.
abbrev pub Lacks : ℕ → GoString → Type 0
Lacks k = All (λ c. (c == k) ≡ false)

-- The texts before and after the first `k`.
split : ℕ → GoString → Option (GoString × GoString)
split k [] = none
split k (c ∷ cs) =
    let rest = split k cs in
    if c == k
    then some ([], cs)
    else (elim rest [ none ↦ none | some (before, after) ↦ some (c ∷ before, after) ])

split-found : (k : ℕ) (s rest : GoString) → Lacks k s → split k (s ++ k ∷ rest) ≡ some (s, rest)
unfolding split
split-found k [] rest h = ground arith
split-found k (c ∷ cs) rest h = rw (h.0, split-found k cs rest h.1)

split-none : (k : ℕ) (s : GoString) → Lacks k s → split k s ≡ none
unfolding split
split-none k [] h = refl
split-none k (c ∷ cs) h = rw (h.0, split-none k cs h.1)

-- `sku:quantity|` as long as there are bars, then `dest:region`.
pub decode : ℕ → GoString → Option (List Line × GoString)
decode zero t = none
decode (suc f) t = elim (split 58 t) [
  | none ↦ none
  | some (name, rest) ↦ elim (split 124 rest) [
    | none ↦ some ([], rest)
    | some (number, more) ↦ elim (parse_int number) [
      | none ↦ none
      | some q ↦ elim (decode f more) [
        | none ↦ none
        | some (items, region) ↦ some (record { sku_id = name; quantity = q } ∷ items, region)
      ]
    ]
  ]
]

Lacks-append : (k : ℕ) (s t : GoString) → Lacks k s → Lacks k t → Lacks k (s ++ t)
Lacks-append k [] t h g = g
Lacks-append k (c ∷ cs) t h g = (h.0, Lacks-append k cs t h.1 g)

digits-Lacks : (f n : ℕ) → Lacks 124 (digits f n)
unfolding digits
digits-Lacks zero n = tt
digits-Lacks (suc f) n = elim (Bool-cases (ltb n 10)) [
  | inl t ↦ rw t (ground arith, tt)
  | inr t ↦
      rw t (Lacks-append 124 (digits f (n / 10)) _ (digits-Lacks f (n / 10)) (ground arith, tt))
]

format_int-Lacks : (a : ℤ) → Lacks 124 (format_int a)
unfolding format_int
format_int-Lacks (pos n) = digits-Lacks 19 n
format_int-Lacks (negsuc n) = (refl, digits-Lacks 19 (suc n))

-- A line whose text is unambiguous.
abbrev pub IsPlain : Line → Type 0
IsPlain l = Lacks 58 l.sku_id × IsInt64 l.quantity

-- A line in front, with the text that follows bracketed to the right.
encode_lines-cons :
    (it : Line) (items : List Line) (t : GoString)
    → encode_lines (it ∷ items) ++ t
      ≡ it.sku_id ++ (58 ∷ (format_int it.quantity ++ (124 ∷ (encode_lines items ++ t))))
unfolding encode_lines
encode_lines-cons it items t = simp append_assoc

decode-dest :
    (f : ℕ) (region : GoString)
    → Lacks 124 region
    → decode (suc f) (encode_lines [] ++ (codes "dest:" ++ region)) ≡ some ([], region)
unfolding decode encode_lines
decode-dest f region r = rw (
  split-found 58 (codes "dest") region (refl, (refl, (refl, (refl, tt)))),
  split-none 124 region r,
  decode,
)

pub decode-encode_lines :
    (f : ℕ) (items : List Line) (region : GoString)
    → length items < f
    → All IsPlain items
    → Lacks 124 region
    → decode f (encode_lines items ++ (codes "dest:" ++ region)) ≡ some (items, region)
unfolding decode
decode-encode_lines zero items region h p r = elim h [ ]
decode-encode_lines (suc f) [] region h p r = decode-dest f region r
decode-encode_lines (suc f) (it ∷ items) region h p r = rw (
  encode_lines-cons it items (codes "dest:" ++ region),
  split-found 58 it.sku_id
      (format_int it.quantity ++ (124 ∷ (encode_lines items ++ (codes "dest:" ++ region)))) p.0.0,
  split-found 124 (format_int it.quantity) (encode_lines items ++ (codes "dest:" ++ region))
      (format_int-Lacks it.quantity),
  parse_int-format_int it.quantity p.0.1,
  decode-encode_lines f items region (omega arith) p.1 r,
  decode,
)
