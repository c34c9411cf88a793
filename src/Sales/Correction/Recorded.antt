-- ===== src/Sales/Correction/Recorded.antt =====
-- What is paid on a sale once its correction has been written: the plan of
-- src/modules/sales/sale-correction.ts, with the payments as sale-correction.service.ts leaves them.
use stock_mgt.Prelude.{ℕ, ◌≡◌, refl, ap, true, none, some, List, [], ◌∷◌, map}
use mathlib.Core.Path.{subst}
use stock_mgt.Prelude.Int.{ℤ, pos, ◌+ℤ◌, ◌-ℤ◌, ◌≤ℤ◌, ◌<ℤ◌, int_laws}
use stock_mgt.Prelude.Result.{ok}
use stock_mgt.Sales.Correction.{
  RecordedSale, PaymentOnSale, CorrectionRequest, SaleCorrectionPlan, Attempt, total_change, live,
  paid, latest_own, plan_sale_correction,
}
use stock_mgt.Sales.Correction.Plan.{owed, Parts-of, planned_walk_in, planned_in_full}
use stock_mgt.Payments.Balance.{SaleBalanceInput, sale_balance, sum}
use stock_mgt.Sales.Correction.Payments.{follow}
use stock_mgt.Sales.Correction.Voided.{AreDistinct, AreWhole}
use stock_mgt.Sales.Correction.Following.{Written, follow_up-Written}

-- What `saleBalance` reads of the sale afterwards: its live payments, and the credit from its returns.
abbrev pub balance_after : RecordedSale → (total_after : ℤ) → List PaymentOnSale → SaleBalanceInput
balance_after sale total_after rows = record {
  total = total_after;
  allocations = map (λ (p : PaymentOnSale). p.allocated_here) (live rows);
  returns = sale.refunded ∷ [];
}

sum-map :
    (rows : List PaymentOnSale)
    → sum (map (λ (p : PaymentOnSale). p.allocated_here) rows) ≡ paid rows
sum-map [] = refl
sum-map (p ∷ rows) = ap (λ x. p.allocated_here +ℤ x) (sum-map rows)

balance-owed :
    (sale : RecordedSale) (total_after : ℤ) (rows : List PaymentOnSale)
    → (sale_balance (balance_after sale total_after rows)).balance
      ≡ owed sale total_after (paid (live rows))
unfolding sale_balance
balance-owed sale total_after rows = rw (sum-map (live rows)) (omega int_laws)

plan-Written :
    (sale : RecordedSale) (request : CorrectionRequest) (new_id : ℕ) {plan : SaleCorrectionPlan}
    → plan_sale_correction sale request ≡ Attempt.planned plan
    → AreDistinct sale.payments
    → AreWhole sale.payments
    → pos 0 ≤ℤ sale.refunded
    → Written sale.payments new_id plan.follows plan.paid_after
plan-Written sale request new_id {plan} h distinct whole refunded =
    let parts = Parts-of sale request h in
    subst (λ (q : SaleCorrectionPlan). Written sale.payments new_id q.follows q.paid_after)
      parts.plan_lem
      (follow_up-Written sale new_id (sale.total +ℤ total_change parts.changes) parts.down distinct
        whole refunded parts.down_lem)

-- Once its correction has been written, a walk-in owes nothing on a sale. The credit from its returns is
-- zero or more; its payments have ids of their own, and one that is on this sale alone is all allocated
-- to it.
pub plan_sale_correction-walk_in :
    (sale : RecordedSale) (request : CorrectionRequest) (new_id : ℕ) {plan : SaleCorrectionPlan}
    → plan_sale_correction sale request ≡ Attempt.planned plan
    → AreDistinct sale.payments
    → AreWhole sale.payments
    → pos 0 ≤ℤ sale.refunded
    → plan.customer_id_after ≡ none
    → (rows : List PaymentOnSale) × (follow plan.follows new_id sale.payments ≡ ok rows)
      × ((sale_balance (balance_after sale plan.total_after rows)).balance ≤ℤ pos 0)
plan_sale_correction-walk_in sale request new_id {plan} h distinct whole refunded none_after =
    let (rows, writes, total) = plan-Written sale request new_id h distinct whole refunded in
    (
      rows,
      writes,
      rw (balance-owed sale plan.total_after rows, total)
          (planned_walk_in sale request h none_after),
    )

-- Once its correction has been written, a sale that was paid in full, with a payment of its own, owes
-- nothing, and no more is paid on it than its total. The credit from its returns is zero or more; its
-- payments have ids of their own, and one that is on this sale alone is all allocated to it.
pub plan_sale_correction-paid_in_full :
    (sale : RecordedSale) (request : CorrectionRequest) (new_id : ℕ) {plan : SaleCorrectionPlan}
    (payment : PaymentOnSale)
    → plan_sale_correction sale request ≡ Attempt.planned plan
    → AreDistinct sale.payments
    → AreWhole sale.payments
    → pos 0 ≤ℤ sale.refunded
    → sale.total -ℤ paid (live sale.payments) -ℤ sale.refunded ≤ℤ pos 0
    → pos 0 <ℤ paid (live sale.payments)
    → latest_own (live sale.payments) (λ p. true) ≡ some payment
    → (rows : List PaymentOnSale) × (follow plan.follows new_id sale.payments ≡ ok rows)
      × ((sale_balance (balance_after sale plan.total_after rows)).balance ≤ℤ pos 0)
      × (paid (live rows) ≤ℤ plan.total_after)
plan_sale_correction-paid_in_full sale request new_id {plan} payment h distinct whole refunded full
      some_paid own =
    let (rows, writes, total) = plan-Written sale request new_id h distinct whole refunded in
    let (covers, bounded) = planned_in_full sale request payment h refunded full some_paid own in
    (rows, writes, rw (balance-owed sale plan.total_after rows, total) covers, rw total bounded)
