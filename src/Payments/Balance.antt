-- ===== src/Payments/Balance.antt =====
-- src/modules/payments/balance.ts: what an invoice still owes, and balances that run both ways. Rows
-- are already the ones that count (`LIVE_ALLOCATIONS` is a filter of the query).
use stock_mgt.Prelude.{List, [], ◌∷◌, if◌then◌else◌}
use stock_mgt.Prelude.Int.{ℤ, pos, ◌+ℤ◌, ◌-ℤ◌, ltb_ℤ}
use stock_mgt.Prelude.Lists.{sum_ℤ}

pub record SaleBalanceInput : Type 0 where
  pub total : ℤ
  -- the amounts of `allocations`, and the refund amounts of `returns`
  pub allocations : List ℤ
  pub returns : List ℤ

pub record SaleBalance : Type 0 where
  pub allocated : ℤ
  pub refunded : ℤ
  pub balance : ℤ

abbrev pub sum : List ℤ → ℤ
sum = sum_ℤ (λ value. value)

unfoldable pub sale_balance : SaleBalanceInput → SaleBalance
sale_balance sale =
    let allocated = sum sale.allocations in
    let refunded = sum sale.returns in
    record {
      allocated = allocated;
      refunded = refunded;
      balance = sale.total -ℤ allocated -ℤ refunded;
    }

pub record OwedBothWays : Type 0 where
  pub owed : ℤ
  pub credit : ℤ

-- The loop of `splitOwed`.
unfoldable pub split_loop : (owed credit : ℤ) → List ℤ → OwedBothWays
split_loop owed credit [] = record { owed = owed; credit = credit }
split_loop owed credit (balance ∷ balances) =
    let counted_owed = split_loop (owed +ℤ balance) credit balances in
    let counted_credit = split_loop owed (credit -ℤ balance) balances in
    if ltb_ℤ (pos 0) balance then counted_owed else counted_credit

unfoldable pub split_owed : List ℤ → OwedBothWays
unfolding split_loop
split_owed balances = split_loop (pos 0) (pos 0) balances
