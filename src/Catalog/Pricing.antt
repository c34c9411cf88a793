-- ===== src/Catalog/Pricing.antt =====
-- src/modules/catalog/pricing.ts: what one unit of a product costs a tier. An id is never the empty text,
-- so an id that is given is true.
use stock_mgt.Prelude.{
  ℕ, ◌≡◌, refl, Bool, true, not, ◌&&◌, ◌||◌, Option, none, some, List, [], ◌∷◌, arith, ◌==◌, opt_eq,
  is_some, inl, inr, Bool-cases,
}
use stock_mgt.Prelude.Int.{ℤ, pos, ◌*ℤ◌}
use stock_mgt.Prelude.Lists.{find, select}
use stock_mgt.Prelude.Result.{Result, ok, ◌>>=◌}
use stock_mgt.Money.{TaxSplit, split_tax_inclusive}
use stock_mgt.Inventory.Stock.Tables.{Text}

-- A row of `prices`.
pub record TierPrice : Type 0 where
  pub tier_id : ℕ
  pub unit_id : ℕ
  pub variant_id : Option ℕ
  pub price : ℤ

pub record PricedProduct : Type 0 where
  pub base_price : Option ℤ
  pub tax_rate_bps : ℤ
  pub prices : List TierPrice

pub record PricedUnit : Type 0 where
  pub id : ℕ
  pub name : Text
  pub factor : ℕ

pub record UnitPrice : Type 0 where
  pub unit_id : ℕ
  pub unit_name : Text
  pub base_quantity : ℕ
  pub price : Option ℤ
  pub is_tier_price : Bool
  pub tax : Option TaxSplit

abbrev pub on_tier : (tier_id unit_id : ℕ) → TierPrice → Bool
on_tier tier_id unit_id row = (row.tier_id == tier_id) && (row.unit_id == unit_id)

-- `find(…) ?? …`
abbrev pub or_find : Option TierPrice → Option TierPrice → Option TierPrice
or_find (some row) other = some row
or_find none other = other

abbrev pub own_price :
    (tier_id unit_id : ℕ) → (variant_id : Option ℕ) → List TierPrice → Option TierPrice
own_price tier_id unit_id none prices = none
own_price tier_id unit_id (some v) prices =
    find (λ row. on_tier tier_id unit_id row && opt_eq row.variant_id (some v)) prices

abbrev pub tiered_price :
    (tier_id : Option ℕ)
    → (unit_id : ℕ) → (variant_id : Option ℕ) → List TierPrice
    → Option TierPrice
tiered_price none unit_id variant_id prices = none
tiered_price (some tier_id) unit_id variant_id prices =
    or_find (own_price tier_id unit_id variant_id prices)
      (find (λ row. on_tier tier_id unit_id row && not (is_some row.variant_id)) prices)

-- The tier's price, or else the base price scaled by the factor, or else none.
abbrev pub price_of : Option TierPrice → Option ℤ → (factor : ℕ) → Option ℤ
price_of (some tiered) base_price factor = some tiered.price
price_of none none factor = none
price_of none (some base_price) factor = some (base_price *ℤ pos factor)

abbrev pub tax_of : Option ℤ → (tax_rate_bps : ℤ) → Result (Option TaxSplit)
tax_of none tax_rate_bps = ok none
tax_of (some price) tax_rate_bps =
    split_tax_inclusive price tax_rate_bps >>= λ split. ok (some split)

unfoldable pub resolve_unit_price :
    PricedProduct → PricedUnit → (tier_id : Option ℕ) → (variant_id : Option ℕ) → Result UnitPrice
resolve_unit_price product unit tier_id variant_id =
    let tiered = tiered_price tier_id unit.id variant_id product.prices in
    let price = price_of tiered product.base_price unit.factor in
    tax_of price product.tax_rate_bps >>= λ tax. ok (record {
      unit_id = unit.id;
      unit_name = unit.name;
      base_quantity = unit.factor;
      price = price;
      is_tier_price = is_some tiered;
      tax = tax;
    })

-- The rows that may price a unit: the product's own, and those of the option that is sold.
abbrev pub concerns : (unit_id : ℕ) → (variant_id : Option ℕ) → TierPrice → Bool
concerns unit_id variant_id row =
    (row.unit_id == unit_id) && (not (is_some row.variant_id) || opt_eq row.variant_id variant_id)

covers_first : (a b s t : Bool) → (a && b && s) ≡ true → (b && (s || t)) ≡ true
covers_first a b s t h = elim (Bool-cases s) [ inl e ↦ ground arith | inr e ↦ ground arith ]

covers_second : (a b s t : Bool) → (a && b && t) ≡ true → (b && (s || t)) ≡ true
covers_second a b s t h = elim (Bool-cases s) [ inl e ↦ ground arith | inr e ↦ ground arith ]

find-select :
    (p q : TierPrice → Bool)
    → ((row : TierPrice) → p row ≡ true → q row ≡ true)
    → (rows : List TierPrice) → find p (select q rows) ≡ find p rows
find-select p q h [] = refl
find-select p q h (row ∷ rows) = elim (Bool-cases (p row)) [
  | inl e ↦ rw (h row e, e) refl
  | inr e ↦ elim (Bool-cases (q row)) [
    | inl k ↦ rw (k, e) (find-select p q h rows)
    | inr k ↦ rw (k, e) (find-select p q h rows)
  ]
]

tiered_price-select :
    (tier_id : Option ℕ) (unit_id : ℕ) (variant_id : Option ℕ) (rows : List TierPrice)
    → tiered_price tier_id unit_id variant_id (select (concerns unit_id variant_id) rows)
      ≡ tiered_price tier_id unit_id variant_id rows
tiered_price-select none unit_id variant_id rows = refl
tiered_price-select (some tier_id) unit_id none rows =
    find-select _ (concerns unit_id none)
      (λ row h.
        covers_first (row.tier_id == tier_id) (row.unit_id == unit_id)
          (not (is_some row.variant_id)) (opt_eq row.variant_id none) h)
      rows
tiered_price-select (some tier_id) unit_id (some v) rows =
    rw
      (
        find-select (λ row. on_tier tier_id unit_id row && opt_eq row.variant_id (some v))
            (concerns unit_id (some v))
            (λ row h.
              covers_second (row.tier_id == tier_id) (row.unit_id == unit_id)
                (not (is_some row.variant_id)) (opt_eq row.variant_id (some v)) h)
            rows,
        find-select (λ row. on_tier tier_id unit_id row && not (is_some row.variant_id))
            (concerns unit_id (some v))
            (λ row h.
              covers_first (row.tier_id == tier_id) (row.unit_id == unit_id)
                (not (is_some row.variant_id)) (opt_eq row.variant_id (some v)) h)
            rows,
      )
      refl

-- An option's price stands in for nothing but that option: the prices of other options and of other
-- units may be taken away, and the answer is the same, its tax included.
pub resolve_unit_price-select :
    (product : PricedProduct) (unit : PricedUnit) (tier_id variant_id : Option ℕ)
    → resolve_unit_price
        (record product { prices = select (concerns unit.id variant_id) product.prices })
        unit
        tier_id
        variant_id
      ≡ resolve_unit_price product unit tier_id variant_id
unfolding resolve_unit_price
resolve_unit_price-select product unit tier_id variant_id =
    rw (tiered_price-select tier_id unit.id variant_id product.prices) refl
