-- ===== src/Tests/Money.antt =====
-- Tax at concrete amounts, in kobo and basis points.
use stock_mgt.Prelude.{◌≡◌, refl, ◌*◌, ◌+◌, ◌≤◌, ◌<◌}
use stock_mgt.Prelude.Int.{pos, negsuc, ◌+ℤ◌, ◌-ℤ◌, ◌*ℤ◌, ◌≤ℤ◌, pos_part}
use stock_mgt.Prelude.Round.{round_div_ℤ}
use stock_mgt.Prelude.Result.{ok, err, Error}
use stock_mgt.Money.{TaxSplit, split_tax_inclusive, add_tax}
use stock_mgt.Money.Tax.{split_tax_inclusive-exact, split_tax_inclusive-add_tax}

-- 1075.00 at 7.5% is 1000.00 and 75.00.
split_vat :
    split_tax_inclusive (pos 107_500) (pos 750)
    ≡ ok (record { gross = pos 107_500; net = pos 100_000; tax = pos 7_500 })
unfolding split_tax_inclusive round_div_ℤ ◌+ℤ◌ ◌-ℤ◌ ◌*ℤ◌
split_vat = refl

split_no_rate : split_tax_inclusive (pos 107_500) (negsuc 0) ≡ err Error.range
unfolding split_tax_inclusive
split_no_rate = refl

split_tax_inclusive-exact_example :
    (t : TaxSplit) × (split_tax_inclusive (pos 99_999) (pos 750) ≡ ok t)
    × (t.net +ℤ t.tax ≡ pos 99_999)
    × (pos 0 ≤ℤ t.net)
    × (pos 0 ≤ℤ t.tax)
    × (2 * (pos_part t.net * 10_750) ≤ 2 * (99_999 * 10_000) + 10_750)
    × (2 * (99_999 * 10_000) < 2 * (pos_part t.net * 10_750) + 10_750)
split_tax_inclusive-exact_example = split_tax_inclusive-exact 99_999 750

split_tax_inclusive-add_tax_example :
    (t : TaxSplit) × (split_tax_inclusive (add_tax (pos 93_023) (pos 750)) (pos 750) ≡ ok t)
    × (t.net ≡ pos 93_023)
split_tax_inclusive-add_tax_example = split_tax_inclusive-add_tax 93_023 750
