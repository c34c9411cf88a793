-- ===== src/Catalog/Variants.antt =====
-- src/modules/catalog/variants.ts: the option that a write names, checked against the product's
-- options. Ids are numbers, names appear in messages only and are left out; `none` is an id that is
-- null, undefined or empty.
pub mod Own
use stock_mgt.Prelude.{
  ℕ, ◌≡◌, refl, Bool, true, false, not, ◌&&◌, Option, none, some, List, [], ◌∷◌, arith, ◌==◌,
  if◌then◌else◌, inl, inr, Option-cases, ◌⊎◌,
}
use stock_mgt.Prelude.Lists.{find, All}
use stock_mgt.Prelude.Result.{Result, ok, err, Error}

pub record KnownVariant : Type 0 where
  pub id : ℕ
  pub is_active : Bool

abbrev pub found : Option KnownVariant → Bool → Result (Option KnownVariant)
found none allow_retired = err Error.bad_request
found (some v) allow_retired =
    if not v.is_active && not allow_retired then err Error.bad_request else ok (some v)

unfoldable pub check_variant : List KnownVariant → Option ℕ → Bool → Result (Option KnownVariant)
check_variant [] none allow_retired = ok none
check_variant [] (some id) allow_retired = err Error.bad_request
check_variant (v ∷ vs) none allow_retired = err Error.bad_request
check_variant (v ∷ vs) (some id) allow_retired =
    found (find (λ candidate. candidate.id == id) (v ∷ vs)) allow_retired
