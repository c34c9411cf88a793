-- ===== src/Tests/Sales.antt =====
-- Prices and corrections at concrete sales.
use stock_mgt.Prelude.{
  ℕ, ◌+◌, ◌*◌, ◌≤◌, ◌<◌, ◌≡◌, ◌⊎◌, refl, true, false, none, some, List, [], ◌∷◌, arith,
}
use stock_mgt.Prelude.Int.{pos, ◌+ℤ◌, ◌-ℤ◌, ◌*ℤ◌, ◌≤ℤ◌, int_laws}
use stock_mgt.Prelude.Result.{Result, ok, err, Error}
use stock_mgt.Prelude.Round.{round_div_ℤ}
use stock_mgt.Prelude.Sort.{sort, insert_sorted}
use stock_mgt.Money.{max_minor_units, multiply, split_tax_inclusive}
use stock_mgt.Sales.Pricing.{PricedLine, price_line, proportion_of_line}
use stock_mgt.Sales.Pricing.Bounds.{price_line-total, proportion_of_line-share}
use stock_mgt.Sales.Correction.{
  RecordedLine, PaymentOnSale, RecordedSale, CorrectionRequest, SaleCorrectionPlan, Attempt,
  plan_sale_correction, latest_own, live, paid, line_changes, line_change, follow_down, follow_up,
  raised_payment, moved_payments, ◌>>=◌, ◌>>◌,
}
use stock_mgt.Payments.Balance.{sale_balance}
use stock_mgt.Sales.Correction.Payments.{follow}
use stock_mgt.Sales.Correction.Recorded.{
  balance_after, plan_sale_correction-walk_in, plan_sale_correction-paid_in_full,
}

price_line-total_example :
    ((3 * 2_500 ≤ max_minor_units)
      × (line : PricedLine) × (price_line (pos 2_500) (pos 3) (pos 750) ≡ ok line)
      × (line.line_total ≡ pos (3 * 2_500))
      × (pos 0 ≤ℤ line.tax_amount)
      × (line.tax_amount ≤ℤ pos (3 * 2_500)))
    ⊎ ((max_minor_units < 3 * 2_500)
        × (price_line (pos 2_500) (pos 3) (pos 750) ≡ err Error.bad_request))
price_line-total_example = price_line-total 2_500 3 750

proportion_of_line-share_example :
    (share : ℕ) × (proportion_of_line (pos 1_000) (pos 3) (pos 2) ≡ ok (pos share))
    × (share ≤ 1_000)
    × (2 * (share * 3) ≤ 2 * (1_000 * 2) + 3)
    × (2 * (1_000 * 2) ≤ 2 * (share * 3) + 3)
proportion_of_line-share_example = proportion_of_line-share 1_000 3 2 (omega arith) (omega arith)

-- One line of two at 5000, paid at the till.
abbrev till_line : RecordedLine
till_line = record {
  id = 1;
  quantity = pos 2;
  unit_price = pos 5_000;
  line_total = pos 10_000;
  tax_rate_bps = pos 0;
  tax_amount = pos 0;
}

abbrev till_payment : PaymentOnSale
till_payment = record {
  id = 9;
  amount = pos 10_000;
  allocated_here = pos 10_000;
  allocated_elsewhere = false;
  voided = false;
  occurred_at = 77;
}

abbrev till_sale : RecordedSale
till_sale = record {
  customer_id = none;
  total = pos 10_000;
  tax_total = pos 0;
  lines = till_line ∷ [];
  has_returns = false;
  refunded = pos 0;
  payments = till_payment ∷ [];
}

abbrev dearer : CorrectionRequest
dearer = record { customer_id = none; lines = record { line_id = 1; unit_price = pos 6_000 } ∷ [] }

abbrev plan_or : SaleCorrectionPlan → Attempt SaleCorrectionPlan → SaleCorrectionPlan
plan_or other (Attempt.planned plan) = plan
plan_or other _ = other

abbrev nothing : SaleCorrectionPlan
nothing = record {
  customer_changed = false;
  customer_id_after = none;
  line_changes = [];
  total_after = pos 0;
  tax_total_after = pos 0;
  paid_before = pos 0;
  paid_after = pos 0;
  follows = none;
  move_payment_ids = [];
}

abbrev dearer_plan : SaleCorrectionPlan
dearer_plan = plan_or nothing (plan_sale_correction till_sale dearer)

dearer-runs : plan_sale_correction till_sale dearer ≡ Attempt.planned dearer_plan
unfolding plan_sale_correction line_changes line_change price_line multiply split_tax_inclusive
    follow_down follow_up raised_payment moved_payments latest_own sort insert_sorted round_div_ℤ
    ◌+ℤ◌ ◌-ℤ◌ ◌*ℤ◌ ◌>>=◌ ◌>>◌
dearer-runs = refl

dearer-walk_in : dearer_plan.customer_id_after ≡ none
unfolding plan_sale_correction line_changes line_change price_line multiply split_tax_inclusive
    follow_down follow_up raised_payment moved_payments latest_own sort insert_sorted round_div_ℤ
    ◌+ℤ◌ ◌-ℤ◌ ◌*ℤ◌ ◌>>=◌ ◌>>◌
dearer-walk_in = refl

abbrev rows_of : Result (List PaymentOnSale) → List PaymentOnSale
rows_of (ok rows) = rows
rows_of (err e) = []

abbrev written : Result (List PaymentOnSale)
written = follow dearer_plan.follows 10 till_sale.payments

raised_at_the_till : paid (live (rows_of written)) ≡ pos 12_000
unfolding follow plan_sale_correction line_changes line_change price_line multiply
    split_tax_inclusive follow_down follow_up raised_payment moved_payments latest_own sort
    insert_sorted round_div_ℤ ◌+ℤ◌ ◌-ℤ◌ ◌*ℤ◌ ◌>>=◌ ◌>>◌
raised_at_the_till = refl

plan_sale_correction-walk_in_example :
    (rows : List PaymentOnSale) × (follow dearer_plan.follows 10 till_sale.payments ≡ ok rows)
    × ((sale_balance (balance_after till_sale dearer_plan.total_after rows)).balance ≤ℤ pos 0)
plan_sale_correction-walk_in_example =
    plan_sale_correction-walk_in till_sale dearer 10 dearer-runs (tt, tt) ((λ e. refl), tt)
      (omega arith) dearer-walk_in

till_own : latest_own (live till_sale.payments) (λ p. true) ≡ some till_payment
unfolding latest_own sort insert_sorted
till_own = refl

plan_sale_correction-paid_in_full_example :
    (rows : List PaymentOnSale) × (follow dearer_plan.follows 10 till_sale.payments ≡ ok rows)
    × ((sale_balance (balance_after till_sale dearer_plan.total_after rows)).balance ≤ℤ pos 0)
    × (paid (live rows) ≤ℤ dearer_plan.total_after)
plan_sale_correction-paid_in_full_example =
    plan_sale_correction-paid_in_full till_sale dearer 10 till_payment dearer-runs (tt, tt)
      ((λ e. refl), tt) (omega arith) (omega int_laws) (omega int_laws) till_own
