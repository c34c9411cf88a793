-- ===== src/Tests/Figures.antt =====
-- Profit, growth and cash at concrete figures.
use stock_mgt.Prelude.{◌≡◌, refl, true, none, some, List, [], ◌∷◌}
use stock_mgt.Prelude.Int.{pos, negsuc, ◌+ℤ◌, ◌-ℤ◌, ◌*ℤ◌}
use stock_mgt.Prelude.Result.{ok}
use stock_mgt.Prelude.Round.{round_div_ℤ}
use stock_mgt.Money.{TaxSplit}
use stock_mgt.Reports.Profit.{
  SoldInPeriod, Period, Profit, compute_profit, profit_with, returned_tax_of,
}
use stock_mgt.Reports.Growth.{change_bps}
use stock_mgt.Cash.{Receipt, oldest_unbanked, covering}

abbrev april : Period
april = record {
  sales = record { total = pos 10_750; tax_total = pos 750; cost_total = pos 6_000 } ∷ [];
  returns = [];
  expenses = record { amount = pos 1_000; is_salary = true } ∷ [];
  rebates = none ∷ [];
}

abbrev may : Period
may = record {
  sales = [];
  returns =
      record { refund_amount = pos 2_150; cost_amount = pos 1_200; tax_rate_bps = pos 750 } ∷ [];
  expenses = [];
  rebates = some (pos 40) ∷ [];
}

abbrev april_profit : Profit
april_profit = profit_with april (pos 0)

abbrev may_profit : Profit
may_profit = profit_with may (pos 150)

april-runs : compute_profit april ≡ ok april_profit
unfolding compute_profit returned_tax_of profit_with
april-runs = refl

may_loses : may_profit.operating_profit ≡ negsuc 759
unfolding profit_with ◌+ℤ◌ ◌-ℤ◌
may_loses = refl

abbrev soap : SoldInPeriod
soap = record { total = pos 2_150; tax_total = pos 150; cost_total = pos 1_200 }

abbrev of_soap : TaxSplit
of_soap = record { gross = pos 2_150; net = pos 2_000; tax = pos 150 }

up_a_quarter : change_bps (pos 800) (pos 1_000) ≡ some (pos 2_500)
unfolding change_bps round_div_ℤ ◌+ℤ◌ ◌-ℤ◌ ◌*ℤ◌
up_a_quarter = refl

abbrev receipts : List Receipt
receipts =
    record { amount = pos 500; occurred_at = 9 } ∷ record { amount = pos 700; occurred_at = 4 } ∷ []

since_the_fourth : oldest_unbanked (pos 600) receipts ≡ some 4
unfolding oldest_unbanked covering ◌+ℤ◌
since_the_fourth = refl
