-- ===== src/Reports/Profit.antt =====
-- src/modules/reports/profit.ts: the profit of a period. A share in basis points is the exact quotient
-- rounded; the division of two doubles may differ from it where the quotient is a half.
pub mod Accounts
use stock_mgt.Prelude.{
  ℕ, Bool, true, false, not, Option, none, some, List, [], ◌∷◌, if◌then◌else◌, or_else,
}
use stock_mgt.Prelude.Int.{ℤ, pos, neg, ◌+ℤ◌, ◌-ℤ◌, ◌*ℤ◌, eqb_ℤ, ltb_ℤ, abs}
use stock_mgt.Prelude.Lists.{sum_ℤ}
use stock_mgt.Prelude.Result.{Result, ok, err, ◌>>=◌}
use stock_mgt.Prelude.Round.{round_div_ℤ}
use stock_mgt.Money.{TaxSplit, split_tax_inclusive, bps_denominator}

pub record SoldInPeriod : Type 0 where
  pub total : ℤ
  pub tax_total : ℤ
  pub cost_total : ℤ

pub record ReturnedInPeriod : Type 0 where
  pub refund_amount : ℤ
  pub cost_amount : ℤ
  pub tax_rate_bps : ℤ

pub record Expense : Type 0 where
  pub amount : ℤ
  pub is_salary : Bool

-- The input of `computeProfit`; a rebate is its credited amount, if it has one.
pub record Period : Type 0 where
  pub sales : List SoldInPeriod
  pub returns : List ReturnedInPeriod
  pub expenses : List Expense
  pub rebates : List (Option ℤ)

pub record Profit : Type 0 where
  pub revenue : ℤ
  pub gross_sales : ℤ
  pub tax : ℤ
  pub returned : ℤ
  pub cogs : ℤ
  pub gross_profit : ℤ
  pub vendor_rebates : ℤ
  pub expenses : ℤ
  pub salaries : ℤ
  pub other_expenses : ℤ
  pub operating_profit : ℤ
  pub margin_bps : ℤ

-- `Math.round((part / whole) * 10_000)`, for a whole that is not zero.
abbrev pub quotient_bps : (part whole : ℤ) → ℤ
quotient_bps part whole =
    if ltb_ℤ whole (pos 0)
    then round_div_ℤ (neg part *ℤ pos bps_denominator) (abs whole)
    else round_div_ℤ (part *ℤ pos bps_denominator) (abs whole)

unfoldable pub margin_bps_of : (gross_profit revenue : ℤ) → ℤ
margin_bps_of gross_profit revenue =
    if eqb_ℤ revenue (pos 0) then pos 0 else quotient_bps gross_profit revenue

unfoldable pub share_bps : (part whole : ℤ) → Option ℤ
share_bps part whole = if eqb_ℤ whole (pos 0) then none else some (quotient_bps part whole)

-- The VAT that the returns unwind, each at the rate of its line.
unfoldable pub returned_tax_of : List ReturnedInPeriod → Result ℤ
returned_tax_of [] = ok (pos 0)
returned_tax_of (row ∷ rows) =
    let rest = returned_tax_of rows in
    split_tax_inclusive row.refund_amount row.tax_rate_bps >>= λ split.
    rest >>= λ tax. ok (split.tax +ℤ tax)

abbrev pub salary_of : Expense → ℤ
salary_of row = if row.is_salary then row.amount else pos 0

abbrev pub other_of : Expense → ℤ
other_of row = if not row.is_salary then row.amount else pos 0

-- `computeProfit` once the VAT of the returns is known.
unfoldable pub profit_with : Period → (returned_tax : ℤ) → Profit
unfolding margin_bps_of
profit_with input returned_tax =
    let gross_sales = sum_ℤ (λ (sale : SoldInPeriod). sale.total) input.sales in
    let sales_tax = sum_ℤ (λ (sale : SoldInPeriod). sale.tax_total) input.sales in
    let sold_cost = sum_ℤ (λ (sale : SoldInPeriod). sale.cost_total) input.sales in
    let returned = sum_ℤ (λ (row : ReturnedInPeriod). row.refund_amount) input.returns in
    let returned_cost = sum_ℤ (λ (row : ReturnedInPeriod). row.cost_amount) input.returns in
    let revenue = gross_sales -ℤ sales_tax -ℤ (returned -ℤ returned_tax) in
    let cogs = sold_cost -ℤ returned_cost in
    let gross_profit = revenue -ℤ cogs in
    let salaries = sum_ℤ salary_of input.expenses in
    let other_expenses = sum_ℤ other_of input.expenses in
    let expenses = salaries +ℤ other_expenses in
    let vendor_rebates = sum_ℤ (λ (credited : Option ℤ). or_else credited (pos 0)) input.rebates in
    record {
      revenue = revenue;
      gross_sales = gross_sales;
      tax = sales_tax -ℤ returned_tax;
      returned = returned;
      cogs = cogs;
      gross_profit = gross_profit;
      vendor_rebates = vendor_rebates;
      expenses = expenses;
      salaries = salaries;
      other_expenses = other_expenses;
      operating_profit = gross_profit +ℤ vendor_rebates -ℤ expenses;
      margin_bps = margin_bps_of gross_profit revenue;
    }

unfoldable pub compute_profit : Period → Result Profit
unfolding returned_tax_of profit_with
compute_profit input =
    returned_tax_of input.returns >>= λ returned_tax. ok (profit_with input returned_tax)
