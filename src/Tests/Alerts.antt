-- ===== src/Tests/Alerts.antt =====
-- A shop with one product in two options, one of them running out and the other retired below zero.
use stock_mgt.Prelude.{ℕ, ◌+◌, ◌≡◌, refl, true, false, some, none, List, [], ◌∷◌}
use stock_mgt.Prelude.Int.{pos, negsuc, ◌+ℤ◌, ◌*ℤ◌}
use stock_mgt.Prelude.Lists.{length, select}
use stock_mgt.Prelude.Sort.{sort, insert_sorted}
use stock_mgt.Reports.StockAlerts.{
  AlertProduct, AlertVariant, HeldStock, SalesSpeed, low_reason, rows_of, live_rows, stock_alerts,
}
use stock_mgt.Reports.StockAlerts.Listed.{is_well, is_negative, stock_alerts-listed}

abbrev option : ℕ → AlertVariant
option id = record { id = id; name = [] }

abbrev soups : List AlertProduct
soups =
    record {
      id = 10;
      name = [];
      sku = [];
      reorder_point = none;
      units = [];
      variants = (option 1, true) ∷ (option 2, false) ∷ [];
    }
    ∷ []

abbrev shelves : List HeldStock
shelves =
    record { product_id = 10; variant_id = some 1; quantity = pos 5 }
    ∷ record { product_id = 10; variant_id = some 2; quantity = negsuc 0 }
    ∷ []

abbrev selling : List SalesSpeed
selling = record { product_id = 10; variant_id = some 1; sold = pos 60; days = 30 } ∷ []

one_low : length (stock_alerts soups shelves selling 7).low_stock ≡ 1
unfolding stock_alerts rows_of low_reason sort insert_sorted ◌+ℤ◌ ◌*ℤ◌
one_low = refl

retired_below_zero : length (stock_alerts soups shelves selling 7).negative ≡ 1
unfolding stock_alerts rows_of low_reason sort insert_sorted ◌+ℤ◌ ◌*ℤ◌
retired_below_zero = refl

stock_alerts-listed_example :
    length (stock_alerts soups shelves selling 7).out_of_stock
      + length (stock_alerts soups shelves selling 7).low_stock
      + length (select is_negative (live_rows (rows_of shelves selling 7 soups)))
      + length (select is_well (live_rows (rows_of shelves selling 7 soups)))
    ≡ length (live_rows (rows_of shelves selling 7 soups))
stock_alerts-listed_example = stock_alerts-listed soups shelves selling 7
