-- ===== src/Catalog/Variants/Own.antt =====
-- Which options `checkVariant` of src/modules/catalog/variants.ts lets through.
use mathlib.Core.List.{Memᴰ}
use stock_mgt.Prelude.{
  ℕ, ◌≡◌, refl, sym, ap, ◌∙◌, Bool, true, ◌||◌, Option, none, some, List, [], ◌∷◌, arith, ◌==◌, inl,
  inr, Bool-cases, ◌⊎◌, ==_iff,
}
use stock_mgt.Prelude.Lists.{find}
use stock_mgt.Prelude.Result.{ok}
use stock_mgt.Catalog.Variants.{KnownVariant, found, check_variant}

find-Memᴰ :
    (id : ℕ) (vs : List KnownVariant) {v : KnownVariant}
    → find (λ candidate. candidate.id == id) vs ≡ some v
    → Memᴰ v vs × (v.id ≡ id)
find-Memᴰ id [] h = cc
find-Memᴰ id (x ∷ vs) {v} h = elim (Bool-cases (x.id == id)) [
  | inl e ↦
      let same : v ≡ x = ground arith in
      (Memᴰ.head same, ap KnownVariant.id same ∙ (==_iff x.id id).0 e)
  | inr e ↦ let (there, same) = find-Memᴰ id vs (ground arith) in (Memᴰ.tail there, same)
]

found_lem :
    (o : Option KnownVariant) (allow_retired : Bool) {result : Option KnownVariant}
    → found o allow_retired ≡ ok result
    → (v : KnownVariant) × (o ≡ some v)
      × (result ≡ some v)
      × ((v.is_active || allow_retired) ≡ true)
found_lem none allow_retired h = cc
found_lem (some v) allow_retired h = (v, refl, ground arith, ground arith)

-- The option that a check lets through is no option, for a product that has none, or the one that was
-- named, which is an option of this product and is in use unless retired ones are allowed.
pub check_variant-own :
    (vs : List KnownVariant) (variant_id : Option ℕ) (allow_retired : Bool)
    {result : Option KnownVariant}
    → check_variant vs variant_id allow_retired ≡ ok result
    → ((vs ≡ []) × (variant_id ≡ none) × (result ≡ none))
      ⊎ ((v : KnownVariant) × (result ≡ some v)
          × (variant_id ≡ some v.id)
          × Memᴰ v vs
          × ((v.is_active || allow_retired) ≡ true))
unfolding check_variant
check_variant-own [] none allow_retired h = inl (refl, refl, cc)
check_variant-own [] (some id) allow_retired h = cc
check_variant-own (x ∷ vs) none allow_retired h = cc
check_variant-own (x ∷ vs) (some id) allow_retired {result} h =
    let (v, e, same_result, active) =
      found_lem (find (λ candidate. candidate.id == id) (x ∷ vs)) allow_retired h in
    let (here, same) = find-Memᴰ id (x ∷ vs) e in
    inr (v, same_result, ap some (sym same), here, active)
