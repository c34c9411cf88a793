-- ===== src/Reports/Profit/Accounts.antt =====
-- Where the money of a period has gone, after src/modules/reports/profit.ts.
use stock_mgt.Prelude.{◌∷◌}
use stock_mgt.Prelude.Int.{ℤ, ◌+ℤ◌}
use stock_mgt.Reports.Profit.{SoldInPeriod, Period, Profit, profit_with}

-- A sale in the period, and the whole of it returned in the period, at one VAT rate.
abbrev pub taken_back : SoldInPeriod → (tax_rate_bps : ℤ) → Period → Period
taken_back sale tax_rate_bps input = record input {
  sales = sale ∷ input.sales;
  returns =
      record {
        refund_amount = sale.total;
        cost_amount = sale.cost_total;
        tax_rate_bps = tax_rate_bps;
      }
      ∷ input.returns;
}

module _ (input : Period) (sale : SoldInPeriod) (rate t : ℤ) where
  abbrev plain : Profit
  plain = profit_with input t

  abbrev without : Profit
  without = profit_with (taken_back sale rate input) (sale.tax_total +ℤ t)
