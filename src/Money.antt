-- ===== src/Money.antt =====
-- src/common/money/money.ts: tax, discounts and products of amounts in minor units, and the largest
-- amount that a money column holds (src/common/money/is-money.validator.ts). An amount is an
-- integer, so the test of `assertMinor` passes and is left out.
pub mod Tax
use stock_mgt.Prelude.{ℕ, ◌+◌, ◌*◌, ◌≡◌, arith, if◌then◌else◌}
use stock_mgt.Prelude.Int.{ℤ, pos, pos_part, ◌+ℤ◌, ◌-ℤ◌, ◌*ℤ◌, ltb_ℤ}
use stock_mgt.Prelude.Result.{Result, ok, err, Error}
use stock_mgt.Prelude.Round.{round_div_ℤ}

abbrev pub bps_denominator : ℕ
bps_denominator = 10_000

abbrev pub max_minor_units : ℕ
max_minor_units = 2_147_483_647

pub record TaxSplit : Type 0 where
  pub gross : ℤ
  pub net : ℤ
  pub tax : ℤ

unfoldable pub split_tax_inclusive : ℤ → ℤ → Result TaxSplit
split_tax_inclusive gross rate_bps =
    if ltb_ℤ rate_bps (pos 0)
    then err Error.range
    else let net : ℤ =
        round_div_ℤ (gross *ℤ pos bps_denominator) (bps_denominator + pos_part rate_bps) in
      ok (record { gross = gross; net = net; tax = gross -ℤ net })

unfoldable pub add_tax : ℤ → ℤ → ℤ
add_tax net rate_bps = net +ℤ round_div_ℤ (net *ℤ rate_bps) bps_denominator

unfoldable pub multiply : ℤ → ℤ → Result ℤ
multiply unit_price quantity =
    if ltb_ℤ quantity (pos 0) then err Error.range else ok (unit_price *ℤ quantity)

unfoldable pub apply_discount : ℤ → ℤ → ℤ
apply_discount amount discount_bps = amount -ℤ round_div_ℤ (amount *ℤ discount_bps) bps_denominator
