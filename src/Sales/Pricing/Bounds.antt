-- ===== src/Sales/Pricing/Bounds.antt =====
-- Bounds and exactness of src/modules/sales/sale-pricing.ts.
use stock_mgt.Prelude.{ℕ, ◌+◌, ◌*◌, ◌≤◌, ◌<◌, ◌≡◌, refl, arith, Bool-cases, inl, inr, ◌⊎◌, ◌==◌}
use stock_mgt.Prelude.Int.{ℤ, pos, ◌+ℤ◌, ◌≤ℤ◌, ltb_ℤ, *ℤ-pos, int_laws}
use stock_mgt.Prelude.Result.{ok, err, Error}
use stock_mgt.Prelude.Round.{round_div, round_div_ℤ-pos, round_div_nearest, round_div-le}
use stock_mgt.Money.{multiply, max_minor_units}
use stock_mgt.Money.Tax.{split_tax_inclusive-exact}
use stock_mgt.Sales.Pricing.{PricedLine, price_line, proportion_of_line}

multiply-pos :
    (unit_price quantity : ℕ)
    → multiply (pos unit_price) (pos quantity) ≡ ok (pos (unit_price * quantity))
unfolding multiply
multiply-pos unit_price quantity = rw (*ℤ-pos unit_price quantity) (ground arith)

tax-le : (net tax gross : ℤ) → net +ℤ tax ≡ gross → pos 0 ≤ℤ net → tax ≤ℤ gross
tax-le net tax gross e h = rw (← e) (omega int_laws)

-- The price of a line is settled by its product and its rate: a product that fits a money column is
-- priced with no exception, its total is the product, and the tax in it is between zero and the
-- total; a larger product is refused as a bad request.
pub price_line-total :
    (unit_price quantity rate : ℕ)
    → let total = unit_price * quantity in
      let run = price_line (pos unit_price) (pos quantity) (pos rate) in
      ((total ≤ max_minor_units)
        × (line : PricedLine) × (run ≡ ok line)
        × (line.line_total ≡ pos total)
        × (pos 0 ≤ℤ line.tax_amount)
        × (line.tax_amount ≤ℤ pos total))
      ⊎ ((max_minor_units < total) × (run ≡ err Error.bad_request))
unfolding price_line
price_line-total unit_price quantity rate =
    let total = unit_price * quantity in
    elim (Bool-cases (ltb_ℤ (pos max_minor_units) (pos total))) [
      | inl e ↦ inr (ground arith, rw (multiply-pos unit_price quantity, e) refl)
      | inr e ↦
          let (split, runs, sums, net, tax, low, high) = split_tax_inclusive-exact total rate in
          inl (
            ground arith,
            record {
              unit_price = pos unit_price;
              line_total = pos total;
              tax_rate_bps = pos rate;
              tax_amount = split.tax;
            },
            rw (multiply-pos unit_price quantity, e, runs) refl,
            refl,
            tax,
            tax-le split.net split.tax _ sums net,
          )
    ]

-- The part of a line that comes back, from none to all of a line of some quantity, is worth no more
-- than the line, and its worth is within a half of the exact proportion.
pub proportion_of_line-share :
    (amount base returned : ℕ)
    → 0 < returned
    → returned ≤ base
    → (share : ℕ) × (proportion_of_line (pos amount) (pos base) (pos returned) ≡ ok (pos share))
      × (share ≤ amount)
      × (2 * (share * base) ≤ 2 * (amount * returned) + base)
      × (2 * (amount * returned) ≤ 2 * (share * base) + base)
unfolding proportion_of_line
proportion_of_line-share amount base returned h k = elim (Bool-cases (returned == base)) [
  | inl e ↦
      let whole : returned ≡ base = ground arith in
      (amount, ground arith, omega arith, rw whole (omega arith), rw whole (omega arith))
  | inr e ↦
      let near = round_div_nearest (amount * returned) base (omega arith) in
      (
        round_div (amount * returned) base,
        rw (*ℤ-pos amount returned, round_div_ℤ-pos (amount * returned) base) (ground arith),
        round_div-le (amount * returned) base amount (omega arith) (grind arith),
        near.0,
        omega (arith, near.1),
      )
]
