-- ===== src/Tests/Reports.antt =====
-- A period of two items summed up, and a vendor bill.
use stock_mgt.Prelude.{ℕ, ◌≡◌, refl, none, some, List, [], ◌∷◌}
use stock_mgt.Prelude.Int.{ℤ, pos, negsuc, ◌-ℤ◌, ◌+ℤ◌}
use stock_mgt.Inventory.Stock.Tables.{StockMovementType}
use stock_mgt.Reports.StockSummary.{
  Amount, MovementTotal, SummaryFigures, summarise_stock, open_lines, count_rows, line_for,
  start_of,
}
use stock_mgt.Reports.StockSummary.Columns.{Balanced, start_quantity, moved_in}
use stock_mgt.Reports.StockSummary.Closing.{quantity_of, summarise_stock-closing}
use stock_mgt.Payables.Balance.{BillBalanceInput, bill_balance}

abbrev amount : ℤ → Amount
amount quantity = record { quantity = quantity; value = none }

abbrev row : ℕ → StockMovementType → ℤ → MovementTotal
row key type quantity = record { amount = amount quantity; key = key; type = type; reason = none }

abbrev before : List (ℕ × Amount)
before = (10, amount (pos 5)) ∷ (11, amount (pos 0)) ∷ []

abbrev during : List MovementTotal
during =
    row 10 StockMovementType.receipt (pos 20)
    ∷ row 12 StockMovementType.receipt (pos 2)
    ∷ row 10 StockMovementType.sale (negsuc 7)
    ∷ []

abbrev ten : SummaryFigures
ten = record {
  opening = pos 5;
  delivered = pos 20;
  sold = pos 8;
  adjusted = pos 0;
  closing = pos 17;
}

ten_closes : quantity_of 10 (summarise_stock 1 before during).lines ≡ some ten
unfolding summarise_stock open_lines count_rows line_for ◌+ℤ◌ ◌-ℤ◌
ten_closes = refl

-- The item that had nothing on either side is left out.
eleven_left_out : quantity_of 11 (summarise_stock 1 before during).lines ≡ none
unfolding summarise_stock open_lines count_rows line_for ◌+ℤ◌ ◌-ℤ◌
eleven_left_out = refl

summarise_stock-closing_example :
    Balanced ten × (ten.closing ≡ start_quantity (start_of 10 before) +ℤ moved_in 10 during)
summarise_stock-closing_example = summarise_stock-closing 1 before during 10 ten_closes

abbrev bill : BillBalanceInput
bill = record {
  amount_due = pos 900;
  payments = pos 300 ∷ [];
  rebates = some (pos 100) ∷ none ∷ [];
}

five_hundred_left : (bill_balance bill).balance ≡ pos 500
unfolding bill_balance ◌+ℤ◌ ◌-ℤ◌
five_hundred_left = refl
