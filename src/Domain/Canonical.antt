-- ===== src/Domain/Canonical.antt =====
-- What CanonicalHash digests stands for the demand and the region, and for nothing else.
use mathlib.Core.Logic.{∥∥₁_elim}
use mathlib.Core.List.{Perm}
use mathlib.Core.List.Perm
use inventory_service.Base.{
  ℕ, suc, Bool-cases, inl, inr, text_ltb, ℕ_discrete, ◌+◌, ◌<◌, GoString, codes, ◌≡◌, sym, ap,
  subst, ◌∙◌, Option, some, List, [], ◌∷◌, length, All, sort, sort-perm, arith,
}
use mathlib.Core.List.{append_assoc}
use inventory_service.Domain.Types.{Line}
use inventory_service.Domain.Hash.{encode_lines, sort_lines, canonical_text, place_line}
use inventory_service.Domain.Demand.{IsDistinct}
use inventory_service.Domain.Decode.{Lacks, IsPlain, decode, decode-encode_lines}
use inventory_service.Domain.Order.{line_before, sort_lines_lem, sort-Permᴰ}

sort_lines-perm : (xs : List Line) → Perm (sort_lines xs) xs
sort_lines-perm xs = rw (sort_lines_lem xs) (sort-perm line_before xs)

place_line-IsPlain :
    (it : Line) (xs : List Line) → IsPlain it → All IsPlain xs → All IsPlain (place_line it xs)
unfolding place_line
place_line-IsPlain it [] p h = (p, tt)
place_line-IsPlain it (x ∷ xs) p h = elim (Bool-cases (text_ltb x.sku_id it.sku_id)) [
  | inl t ↦ rw t (h.0, place_line-IsPlain it xs p h.1)
  | inr t ↦ rw t (p, h)
]

sort_lines-IsPlain : (xs : List Line) → All IsPlain xs → All IsPlain (sort_lines xs)
unfolding sort_lines
sort_lines-IsPlain [] h = tt
sort_lines-IsPlain (x ∷ xs) h = place_line-IsPlain x (sort_lines xs) h.0 (sort_lines-IsPlain xs h.1)

canonical_text-decode :
    (f : ℕ) (items : List Line) (region : GoString)
    → length (sort_lines items) < f
    → All IsPlain items
    → Lacks 124 region
    → decode f (canonical_text items region) ≡ some (sort_lines items, region)
unfolding canonical_text
canonical_text-decode f items region h p r =
    rw (append_assoc (encode_lines (sort_lines items)) (codes "dest:") region)
      (decode-encode_lines f (sort_lines items) region h (sort_lines-IsPlain items p) r)

lines_set : IsSet (List Line)
lines_set = hlevel ℕ_discrete

sort-perm_eq :
    {xs ys : List Line} → IsDistinct xs → Perm xs ys → sort line_before xs ≡ sort line_before ys
sort-perm_eq d p = ∥∥₁_elim p (lines_set _ _) (λ q. sort-Permᴰ q d)

module _ (items items' : List Line) (region region' : GoString) where
  pub text_sound :
      All IsPlain items
      → All IsPlain items'
      → Lacks 124 region
      → Lacks 124 region'
      → canonical_text items region ≡ canonical_text items' region'
      → Perm items items' × (region ≡ region')
  text_sound p p' r r' e =
      let f = suc (length (sort_lines items) + length (sort_lines items')) in
      let same : ◌≡◌ {A = Option (List Line × GoString)} (some (sort_lines items, region))
          (some (sort_lines items', region')) =
        sym (canonical_text-decode f items region (omega arith) p r)
        ∙ ap (decode f) e
        ∙ canonical_text-decode f items' region' (omega arith) p' r' in
      let lines : sort_lines items ≡ sort_lines items' = cc same in
      (
        Perm.trans (Perm.symm (sort_lines-perm items))
            (subst (λ l. Perm l items') (sym lines) (sort_lines-perm items')),
        cc same,
      )

  pub text_complete :
      IsDistinct items
      → Perm items items'
      → region ≡ region'
      → canonical_text items region ≡ canonical_text items' region'
  unfolding canonical_text
  text_complete d p e = rw (e, sort_lines_lem items, sort_lines_lem items', sort-perm_eq d p)
