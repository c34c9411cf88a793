-- ===== src/Sales/Pricing.antt =====
-- src/modules/sales/sale-pricing.ts: the arithmetic of an invoice line. Amounts and quantities are
-- integers. `round_cost` takes the exact fraction that `costOf` computes, which is always finite.
pub mod Bounds
use stock_mgt.Prelude.{ℕ, Bool, true, false, ◌*◌, if◌then◌else◌, ◌==◌}
use stock_mgt.Prelude.Int.{ℤ, pos, pos_part, ◌+ℤ◌, ◌*ℤ◌, ltb_ℤ, leb_ℤ, eqb_ℤ}
use stock_mgt.Prelude.Result.{Result, ok, err, Error, throw_if, ◌>>=◌, ◌>>◌}
use stock_mgt.Prelude.Round.{round_div_ℤ}
use stock_mgt.Money.{TaxSplit, split_tax_inclusive, multiply, max_minor_units}

pub record PricedLine : Type 0 where
  pub unit_price : ℤ
  pub line_total : ℤ
  pub tax_rate_bps : ℤ
  pub tax_amount : ℤ

-- `priceLine` once the total is known.
abbrev pub with_tax : (unit_price line_total tax_rate_bps : ℤ) → Result PricedLine
with_tax unit_price line_total tax_rate_bps =
    split_tax_inclusive line_total tax_rate_bps >>= λ split. ok (record {
      unit_price = unit_price;
      line_total = line_total;
      tax_rate_bps = tax_rate_bps;
      tax_amount = split.tax;
    })

unfoldable pub price_line : (unit_price quantity tax_rate_bps : ℤ) → Result PricedLine
price_line unit_price quantity tax_rate_bps = multiply unit_price quantity >>= λ line_total.
    throw_if (ltb_ℤ (pos max_minor_units) line_total) Error.bad_request
    >> with_tax unit_price line_total tax_rate_bps

-- `roundCost(n / d)`
unfoldable pub round_cost : ℤ → ℕ → ℤ
round_cost n d = round_div_ℤ n d

unfoldable pub proportion_of_line : (amount base_quantity returned_base_quantity : ℤ) → Result ℤ
proportion_of_line amount base_quantity returned_base_quantity =
    if leb_ℤ returned_base_quantity (pos 0)
    then err Error.range
    else if ltb_ℤ base_quantity returned_base_quantity
    then err Error.range
    else if eqb_ℤ returned_base_quantity base_quantity
    then ok amount
    else ok (round_div_ℤ (amount *ℤ returned_base_quantity) (pos_part base_quantity))
