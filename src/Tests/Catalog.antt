-- ===== src/Tests/Catalog.antt =====
-- Options checked and units priced at a concrete product.
use stock_mgt.Prelude.{ℕ, ◌≡◌, ◌⊎◌, refl, true, false, ◌||◌, Option, none, some, List, [], ◌∷◌}
use stock_mgt.Prelude.Result.{Result, ok, err, Error}
use stock_mgt.Catalog.Variants.{KnownVariant, check_variant}
use stock_mgt.Prelude.Int.{ℤ, pos, ◌*ℤ◌}
use stock_mgt.Money.{split_tax_inclusive}
use mathlib.Core.List.{Memᴰ}
use stock_mgt.Catalog.Variants.Own.{check_variant-own}
use stock_mgt.Catalog.Pricing.{
  TierPrice, PricedProduct, PricedUnit, UnitPrice, resolve_unit_price, resolve_unit_price-select,
}

abbrev red : KnownVariant
red = record { id = 4; is_active = true }

abbrev retired : KnownVariant
retired = record { id = 5; is_active = false }

abbrev options : List KnownVariant
options = red ∷ retired ∷ []

red_passes : check_variant options (some 4) false ≡ ok (some red)
unfolding check_variant
red_passes = refl

retired_refused : check_variant options (some 5) false ≡ err Error.bad_request
unfolding check_variant
retired_refused = refl

abbrev row : Option ℕ → ℕ → TierPrice
row variant_id price = record {
  tier_id = 1;
  unit_id = 2;
  variant_id = variant_id;
  price = pos price;
}

abbrev noodles : PricedProduct
noodles = record {
  base_price = some (pos 100);
  tax_rate_bps = pos 750;
  prices = row (some 5) 1_300 ∷ row (some 4) 1_100 ∷ row none 1_000 ∷ [];
}

abbrev carton : PricedUnit
carton = record { id = 2; name = []; factor = 12 }

abbrev price : Result UnitPrice → Option ℤ
price (ok p) = p.price
price (err e) = none

own_price_wins : price (resolve_unit_price noodles carton (some 1) (some 4)) ≡ some (pos 1_100)
unfolding resolve_unit_price split_tax_inclusive
own_price_wins = refl

base_price_scaled : price (resolve_unit_price noodles carton none (some 4)) ≡ some (pos 1_200)
unfolding resolve_unit_price split_tax_inclusive ◌*ℤ◌
base_price_scaled = refl

-- The price of option 5 does not count for option 4.
resolve_unit_price-select_example :
    resolve_unit_price
      (record noodles { prices = row (some 4) 1_100 ∷ row none 1_000 ∷ [] })
      carton
      (some 1)
      (some 4)
    ≡ resolve_unit_price noodles carton (some 1) (some 4)
resolve_unit_price-select_example = resolve_unit_price-select noodles carton (some 1) (some 4)

abbrev let_through : Option KnownVariant
let_through = some red

abbrev named : Option ℕ
named = some 4

check_variant-own_example :
    ((options ≡ []) × (named ≡ none) × (let_through ≡ none))
    ⊎ ((v : KnownVariant) × (let_through ≡ some v)
        × (named ≡ some v.id)
        × Memᴰ v options
        × ((v.is_active || false) ≡ true))
check_variant-own_example = check_variant-own options named false red_passes
