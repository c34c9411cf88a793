-- ===== src/Payables/Balance.antt =====
-- src/modules/payables/balance.ts: what a vendor bill still owes. The payments are those that nobody
-- voided (`LIVE_SUPPLIER_PAYMENTS` is a filter of the query).
use stock_mgt.Prelude.{Option, List, or_else}
use stock_mgt.Prelude.Int.{ℤ, pos, ◌-ℤ◌}
use stock_mgt.Prelude.Lists.{sum_ℤ}

pub record BillBalanceInput : Type 0 where
  pub amount_due : ℤ
  -- the amounts of `payments`, and the credited amounts of `rebates`
  pub payments : List ℤ
  pub rebates : List (Option ℤ)

pub record BillBalance : Type 0 where
  pub paid : ℤ
  pub rebated : ℤ
  pub balance : ℤ

unfoldable pub bill_balance : BillBalanceInput → BillBalance
bill_balance bill =
    let paid = sum_ℤ (λ amount. amount) bill.payments in
    let rebated = sum_ℤ (λ credited. or_else credited (pos 0)) bill.rebates in
    record { paid = paid; rebated = rebated; balance = bill.amount_due -ℤ paid -ℤ rebated }
