-- ===== src/Inventory/Stocktake/Rows.antt =====
-- The tables of src/modules/inventory/stocktake.service.ts and what its requests read of them.
use stock_mgt.Prelude.{
  ℕ, Bool, true, false, not, ◌&&◌, ◌||◌, Option, none, some, List, [], ◌∷◌, map, ◌==◌,
  if◌then◌else◌, opt_eq, is_some,
}
use stock_mgt.Prelude.Int.{ℤ, pos, ◌-ℤ◌, eqb_ℤ}
use stock_mgt.Prelude.Lists.{find, select, mem, length, sum_ℤ}
use stock_mgt.Prelude.Result.{Result, ok, err, Error, throw_if, ◌>>=◌, ◌>>◌}
use stock_mgt.Catalog.Variants.{check_variant}
use stock_mgt.Catalog.Units.{Product}
use stock_mgt.Inventory.Stock.Tables.{Text, StockBalance}
use stock_mgt.Inventory.Stock.Writer.{StockWriter}
use stock_mgt.Inventory.Stock.Calls.{Action}

pub data StocktakeStatus : Type 0 where
  open_count posted cancelled : StocktakeStatus

abbrev pub is_open : StocktakeStatus → Bool
is_open StocktakeStatus.open_count = true
is_open _ = false

-- A row of `stocktake_lines`.
pub record StocktakeLine : Type 0 where
  pub id : ℕ
  pub product_id : ℕ
  pub variant_id : Option ℕ
  pub counted_quantity : ℤ
  pub expected_quantity : ℤ
  pub note : Option Text
  pub counted_by_user_id : Option ℕ
  pub counted_at : ℕ

-- A row of `stocktakes`, with its lines.
pub record Stocktake : Type 0 where
  pub id : ℕ
  pub organization_id : ℕ
  pub location_id : ℕ
  pub status : StocktakeStatus
  pub note : Option Text
  pub started_by_user_id : Option ℕ
  pub posted_at : Option ℕ
  pub posted_by_user_id : Option ℕ
  pub cancelled_at : Option ℕ
  pub lines : List StocktakeLine

-- The database: the stock's tables, and those of the counts.
pub record Counting (Db : Type 0) : Type 0 where
  pub stock : Db
  pub stocktakes : List Stocktake

abbrev pub find_stocktake : ℕ → List Stocktake → Option Stocktake
find_stocktake id = find (λ (s : Stocktake). s.id == id)

-- `stocktake.update({ where: { id }, … })`
abbrev pub update_stocktake : ℕ → (Stocktake → Stocktake) → List Stocktake → List Stocktake
update_stocktake id change = map (λ (s : Stocktake). if s.id == id then change s else s)

-- The result of `requireOpen`.
abbrev pub require_open : Option Stocktake → Result Stocktake
require_open none = err Error.not_found
require_open (some s) = if is_open s.status then ok s else err Error.conflict

-- `lineKey(…) === lineKey(…)`
abbrev pub is_line : ℕ → Option ℕ → StocktakeLine → Bool
is_line product_id variant_id line =
    (line.product_id == product_id) && opt_eq line.variant_id variant_id

-- `onHandByLine`: the balances that it sums, and the sum for a product and option, zero if there is
-- none.
abbrev pub balances_for : ℕ → List ℕ → List StockBalance → List StockBalance
balances_for location_id product_ids =
    select
      (λ (b : StockBalance). (b.key.location_id == location_id) && mem b.key.product_id product_ids)

abbrev pub quantity_for : List StockBalance → ℕ → Option ℕ → ℤ
quantity_for rows product_id variant_id =
    sum_ℤ
      (λ (b : StockBalance).
        if (b.key.product_id == product_id) && opt_eq b.key.variant_id variant_id
        then b.quantity
        else pos 0)
      rows

module _ {Db : Type 0} (w : StockWriter Db) where
  unfoldable pub on_hand_by_line : ℕ → List ℕ → Db → ℕ → Option ℕ → ℤ
  on_hand_by_line location_id product_ids d =
      quantity_for (balances_for location_id product_ids (w.balances d))

-- One line of `assertCountable`, for the product that it names.
abbrev pub countable : (posting : Bool) → Option ℕ → Option Product → Result (Unit {0})
countable posting variant_id none = throw_if (not posting) Error.not_found
countable posting variant_id (some product) = do
  throw_if (not posting && not product.track_stock) Error.conflict
  throw_if (posting && not (is_some variant_id) && not (length product.variants == 0))
      Error.bad_request
  variant ← check_variant product.variants variant_id true
  ok tt

unfoldable pub assert_countable :
    (posting : Bool) → List Product → List (ℕ × Option ℕ) → Result (Unit {0})
assert_countable posting products [] = ok tt
assert_countable posting products ((product_id, variant_id) ∷ lines) = do
  countable posting variant_id
      (find (λ (p : Product). (p.id == product_id) && (posting || not p.is_deleted)) products)
  assert_countable posting products lines

-- What `findOne` shows of a line.
pub record LineView : Type 0 where
  pub line : StocktakeLine
  pub expected_quantity : ℤ
  pub variance : ℤ

pub record StocktakeView : Type 0 where
  pub stocktake : Stocktake
  pub lines : List LineView
  pub counted : ℕ
  pub discrepancies : ℕ
  pub net_variance : ℤ

module _ {Db : Type 0} (w : StockWriter Db) where
  -- An open count is measured against the stock, a closed one against its snapshot.
  abbrev pub line_view : Stocktake → Db → StocktakeLine → LineView
  line_view s d line =
      let expected =
        if is_open s.status
        then on_hand_by_line w s.location_id (map (λ (l : StocktakeLine). l.product_id) s.lines) d
            line.product_id line.variant_id
        else line.expected_quantity in
      record {
        line = line;
        expected_quantity = expected;
        variance = line.counted_quantity -ℤ expected;
      }

  abbrev pub view : Db → Stocktake → StocktakeView
  view d s =
      let lines = map (line_view s d) s.lines in
      record {
        stocktake = s;
        lines = lines;
        counted = length lines;
        discrepancies = length (select (λ (l : LineView). not (eqb_ℤ l.variance (pos 0))) lines);
        net_variance = sum_ℤ (λ (l : LineView). l.variance) lines;
      }

  unfoldable pub find_one : ℕ → Action (Counting Db) StocktakeView
  unfolding on_hand_by_line
  find_one id c = elim (find_stocktake id c.stocktakes) [
    | none ↦ (err Error.not_found, c)
    | some s ↦ (ok (view c.stock s), c)
  ]
