-- ===== src/Reports/Growth.antt =====
-- src/modules/reports/growth.ts: how a period compares with the one before. A change in basis points is
-- the exact quotient rounded. Times are milliseconds since 1970.
use stock_mgt.Prelude.{
  ℕ, ◌+◌, ◌≤◌, ◌≡◌, ◌&&◌, Option, none, some, List, [], ◌∷◌, ltb, leb, ◌==◌, if◌then◌else◌, arith,
}
use stock_mgt.Prelude.Int.{ℤ, pos, ◌-ℤ◌, ◌*ℤ◌, eqb_ℤ, abs}
use stock_mgt.Prelude.Round.{round_div_ℤ}
use stock_mgt.Money.{bps_denominator}

pub record GrowthFigures : Type 0 where
  pub revenue : ℤ
  pub gross_profit : ℤ
  pub margin_bps : ℤ
  pub operating_profit : ℤ
  pub collected : ℤ
  pub sales : ℕ
  pub average_sale : ℤ
  pub customers : ℕ
  pub new_customers : ℕ

pub record GrowthChange : Type 0 where
  pub revenue : Option ℤ
  pub gross_profit : Option ℤ
  pub operating_profit : Option ℤ
  pub collected : Option ℤ
  pub sales : Option ℤ
  pub average_sale : Option ℤ
  pub customers : Option ℤ
  pub new_customers : Option ℤ
  pub margin_points : ℤ

unfoldable pub change_bps : (previous current : ℤ) → Option ℤ
change_bps previous current =
    if eqb_ℤ previous (pos 0)
    then none
    else some (round_div_ℤ ((current -ℤ previous) *ℤ pos bps_denominator) (abs previous))

unfoldable pub average_sale_of : (revenue : ℤ) → (sales : ℕ) → ℤ
average_sale_of revenue sales = if sales == 0 then pos 0 else round_div_ℤ revenue sales

unfoldable pub compare_growth : (current previous : GrowthFigures) → GrowthChange
unfolding change_bps
compare_growth current previous = record {
  revenue = change_bps previous.revenue current.revenue;
  gross_profit = change_bps previous.gross_profit current.gross_profit;
  operating_profit = change_bps previous.operating_profit current.operating_profit;
  collected = change_bps previous.collected current.collected;
  sales = change_bps (pos previous.sales) (pos current.sales);
  average_sale = change_bps previous.average_sale current.average_sale;
  customers = change_bps (pos previous.customers) (pos current.customers);
  new_customers = change_bps (pos previous.new_customers) (pos current.new_customers);
  margin_points = current.margin_bps -ℤ previous.margin_bps;
}

unfoldable pub count_first_purchases : List ℕ → (start end : ℕ) → ℕ
count_first_purchases [] start end = 0
count_first_purchases (at ∷ first_purchases) start end =
    (if leb start at && ltb at end then 1 else 0) + count_first_purchases first_purchases start end

-- A first purchase falls into just one of two periods that meet: the counts of the two add up to the
-- count of the whole.
pub count_first_purchases-meet :
    (first_purchases : List ℕ) (start middle end : ℕ)
    → start ≤ middle
    → middle ≤ end
    → count_first_purchases first_purchases start middle
        + count_first_purchases first_purchases middle end
      ≡ count_first_purchases first_purchases start end
unfolding count_first_purchases
count_first_purchases-meet [] start middle end h k = omega arith
count_first_purchases-meet (at ∷ first_purchases) start middle end h k =
    ground (arith, count_first_purchases-meet first_purchases start middle end h k)
