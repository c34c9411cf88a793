-- ===== src/Tests/Stocktake.antt =====
-- A count of two options: ten were put on one of them, and the shelf says six and five.
use stock_mgt.Prelude.{ℕ, ◌≡◌, refl, true, false, Option, none, some, List, [], ◌∷◌}
use stock_mgt.Prelude.Int.{ℤ, pos, ◌+ℤ◌, ◌*ℤ◌, ◌-ℤ◌}
use stock_mgt.Prelude.Result.{Result, ok, err}
use stock_mgt.Prelude.Sort.{sort, insert_sorted}
use stock_mgt.Catalog.Variants.{check_variant, KnownVariant}
use stock_mgt.Inventory.Fefo.{sort_fefo, allocate_fefo, allocate_loop, goes_before}
use stock_mgt.Inventory.Locations.{resolve_default_id}
use stock_mgt.Inventory.Stock.Tables.{MovementInput, StockMovementType}
use stock_mgt.Inventory.Stock.Memory.{Memory, memory, memory-IsDatabase}
use stock_mgt.Inventory.Stock.Calls.{transaction, ◌>>=◌}
use stock_mgt.Inventory.Stock.Service.{
  record_inbound, assert_variant, assert_positive, require_organization_id, apply_to_balance,
}
use stock_mgt.Inventory.Stock.Outbound.{
  record_outbound, available_batches, cover_shortfall, write_out,
}
use stock_mgt.Inventory.Stock.OnHand.{Place, on_hand}
use stock_mgt.Inventory.Stock.Operations.{Directory, location_of}
use stock_mgt.Inventory.Stocktake.Rows.{
  Stocktake, StocktakeStatus, StocktakeView, Counting, find_stocktake, is_open, on_hand_by_line,
  assert_countable, find_one,
}
use stock_mgt.Inventory.Stocktake.Count.{
  remove_line, CreateStocktake, CountLine, create, count, cancel, put_lines, put_line,
}
use stock_mgt.Inventory.Stocktake.Post.{
  as_posted, post, post_transaction, correct_stock, post_products, post_product, post_short,
  post_over, move_out, write_off_rest, arrive_on, write_on_rest, batch_for_surplus, newest_here,
}
use stock_mgt.Inventory.Stocktake.Sheet.{Distinct, counted_or, line_at}
use stock_mgt.Inventory.Stocktake.Settle.{post-settles}
use stock_mgt.Inventory.Stocktake.Edits.{AllDistinct}
use stock_mgt.Inventory.Stocktake.Closed.{
  Untouched, counting-Untouched, Step, Reach, Reach-closed, Reach-Distinct,
}
use stock_mgt.Tests.Stock.{opened, owner, of_ten}
use stock_mgt.Tests.Floor.{location, soap}

abbrev option : ℕ → KnownVariant
option id = record { id = id; is_active = true }

abbrev shop : Directory Memory
shop = record {
  locations = λ d. location 20 true ∷ [];
  products = λ d. record soap { variants = option 40 ∷ option 41 ∷ [] } ∷ [];
}

abbrev before : Memory
before = record opened {
  variants =
      record { product_id = 10; known = option 40 }
      ∷ record { product_id = 10; known = option 41 }
      ∷ [];
}

abbrev all_on_one : MovementInput
all_on_one = record (of_ten (pos 10) StockMovementType.receipt) { variant_id = some 40 }

abbrev stocked : Memory
stocked = (record_inbound memory owner (record { movement = all_on_one; batch_id = 30 }) before).1

abbrev nothing_counted : Counting Memory
nothing_counted = record { stock = stocked; stocktakes = [] }

abbrev started : Counting Memory
started =
    (create memory shop owner (record { id = some 1; location_id = none; note = none })
      nothing_counted).1

abbrev counted_as : ℕ → ℤ → CountLine
counted_as variant_id quantity = record {
  product_id = 10;
  variant_id = some variant_id;
  counted_quantity = quantity;
  note = none;
}

-- The second option is counted twice: the later count stands.
abbrev sheet : List CountLine
sheet = counted_as 40 (pos 6) ∷ counted_as 41 (pos 4) ∷ counted_as 41 (pos 5) ∷ []

abbrev filled_in : Counting Memory
filled_in = (count memory shop owner 1 sheet started).1

abbrev row_of : Option Stocktake → Stocktake
row_of (some s) = s
row_of none = record {
  id = 0;
  organization_id = 0;
  location_id = 0;
  status = StocktakeStatus.open_count;
  note = none;
  started_by_user_id = none;
  posted_at = none;
  posted_by_user_id = none;
  cancelled_at = none;
  lines = [];
}

abbrev the_count : Stocktake
the_count = row_of (find_stocktake 1 filled_in.stocktakes)

abbrev posting : Result (StocktakeView × ℕ) × Counting Memory
posting = post memory shop owner 1 filled_in

abbrev shown : Result (StocktakeView × ℕ) → StocktakeView × ℕ
shown (ok r) = r
shown (err e) = (
  record {
    stocktake = row_of none;
    lines = [];
    counted = 0;
    discrepancies = 0;
    net_variance = pos 0;
  },
  0,
)

found-runs : find_stocktake 1 filled_in.stocktakes ≡ some the_count
unfolding create count location_of resolve_default_id assert_countable check_variant put_lines
    put_line on_hand_by_line find_one record_inbound assert_positive require_organization_id
    apply_to_balance assert_variant ◌>>=◌
found-runs = refl

post-runs : posting ≡ (ok (shown posting.0), posting.1)
unfolding create count location_of resolve_default_id assert_countable check_variant put_lines
    put_line on_hand_by_line find_one record_inbound assert_positive require_organization_id
    apply_to_balance assert_variant ◌>>=◌ post post_transaction correct_stock post_products
    post_product post_short post_over move_out write_off_rest arrive_on write_on_rest
    batch_for_surplus newest_here record_outbound available_batches cover_shortfall write_out
    transaction allocate_fefo allocate_loop sort_fefo goes_before sort insert_sorted ◌-ℤ◌ ◌+ℤ◌ ◌*ℤ◌
post-runs = refl

one_each : Distinct the_count.lines
unfolding create count location_of resolve_default_id assert_countable check_variant put_lines
    put_line on_hand_by_line find_one record_inbound assert_positive require_organization_id
    apply_to_balance assert_variant ◌>>=◌
one_each = (refl, (refl, tt))

post-settles_example :
    ((p : Place)
      → on_hand memory p posting.1.stock
        ≡ counted_or (on_hand memory p filled_in.stock) (line_at the_count p the_count.lines))
    × (is_open the_count.status ≡ true)
    × (find_stocktake the_count.id posting.1.stocktakes ≡ some (as_posted memory owner the_count))
post-settles_example =
    post-settles memory memory-IsDatabase shop owner 1 filled_in post-runs found-runs one_each

-- The count is called off, and another is started.
abbrev called_off : Counting Memory
called_off = (cancel memory shop owner 1 started).1

abbrev off : Stocktake
off = row_of (find_stocktake 1 called_off.stocktakes)

abbrev another : CreateStocktake
another = record { id = some 2; location_id = some 20; note = none }

abbrev restarted : Result Stocktake × Counting Memory
restarted = create memory shop owner another called_off

abbrev row_in : Result Stocktake → Stocktake
row_in (ok s) = s
row_in (err e) = row_of none

restart-runs : restarted ≡ (ok (row_in restarted.0), restarted.1)
unfolding create count location_of resolve_default_id assert_countable check_variant put_lines
    put_line on_hand_by_line find_one record_inbound assert_positive require_organization_id
    apply_to_balance assert_variant ◌>>=◌ cancel
restart-runs = refl

off-found : find_stocktake 1 called_off.stocktakes ≡ some off
unfolding create count location_of resolve_default_id assert_countable check_variant put_lines
    put_line on_hand_by_line find_one record_inbound assert_positive require_organization_id
    apply_to_balance assert_variant ◌>>=◌ cancel
off-found = refl

off-closed : is_open off.status ≡ false
unfolding create count location_of resolve_default_id assert_countable check_variant put_lines
    put_line on_hand_by_line find_one record_inbound assert_positive require_organization_id
    apply_to_balance assert_variant ◌>>=◌ cancel
off-closed = refl

Reach-closed_example : find_stocktake 1 restarted.1.stocktakes ≡ some off
Reach-closed_example =
    Reach-closed memory memory-IsDatabase shop 1 off
      (Reach.next Reach.here (Step.created owner another restart-runs)) off-found off-closed

abbrev counting : Result StocktakeView × Counting Memory
counting = count memory shop owner 1 sheet started

abbrev view_in : Result StocktakeView → StocktakeView
view_in (ok v) = v
view_in (err e) = (shown (err e)).0

count-runs : counting ≡ (ok (view_in counting.0), counting.1)
unfolding create count location_of resolve_default_id assert_countable check_variant put_lines
    put_line on_hand_by_line find_one record_inbound assert_positive require_organization_id
    apply_to_balance assert_variant ◌>>=◌ ◌-ℤ◌ ◌+ℤ◌
count-runs = refl

abbrev first : CreateStocktake
first = record { id = some 1; location_id = none; note = none }

start-runs :
    create memory shop owner first nothing_counted
    ≡ (ok (row_in (create memory shop owner first nothing_counted).0), started)
unfolding create count location_of resolve_default_id assert_countable check_variant put_lines
    put_line on_hand_by_line find_one record_inbound assert_positive require_organization_id
    apply_to_balance assert_variant ◌>>=◌ cancel
start-runs = refl

Reach-Distinct_example : AllDistinct counting.1.stocktakes
Reach-Distinct_example =
    Reach-Distinct memory memory-IsDatabase shop {start = nothing_counted} refl (
      Reach.next (Reach.next Reach.here (Step.created owner first start-runs))
        (Step.counted owner 1 sheet count-runs))

counting-Untouched_example :
    Untouched memory shop owner started (create memory shop owner another started)
    × Untouched memory shop owner started (count memory shop owner 1 sheet started)
    × Untouched memory shop owner started (remove_line memory shop owner 1 10 (some 40) started)
    × Untouched memory shop owner started (cancel memory shop owner 1 started)
counting-Untouched_example =
    counting-Untouched memory shop owner another 1 10 (some 40) sheet started
