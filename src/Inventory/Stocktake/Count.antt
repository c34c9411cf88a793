-- ===== src/Inventory/Stocktake/Count.antt =====
-- The requests of src/modules/inventory/stocktake.service.ts that change a count and leave the stock as
-- it is: `create`, `count`, `removeLine` and `cancel`.
use stock_mgt.Prelude.{
  ℕ, suc, false, not, ◌&&◌, Option, none, some, List, [], ◌∷◌, ◌++◌, map, ◌==◌, if◌then◌else◌,
  or_else, is_some,
}
use stock_mgt.Prelude.Int.{ℤ}
use stock_mgt.Prelude.Lists.{find, select, any}
use stock_mgt.Prelude.Result.{ok, err, Error, throw_if}
use stock_mgt.Inventory.Stock.Tables.{Text, Context}
use stock_mgt.Inventory.Stock.Writer.{StockWriter}
use stock_mgt.Inventory.Stock.Calls.{Action, lift, ◌>>=◌, ◌>>◌}
use stock_mgt.Inventory.Stock.Service.{require_organization_id}
use stock_mgt.Inventory.Stock.Operations.{Directory, location_of}
use stock_mgt.Inventory.Stocktake.Rows.{
  StocktakeStatus, is_open, StocktakeLine, Stocktake, Counting, find_stocktake, update_stocktake,
  require_open, is_line, on_hand_by_line, assert_countable, StocktakeView, find_one,
}

pub record CreateStocktake : Type 0 where
  pub id : Option ℕ
  pub location_id : Option ℕ
  pub note : Option Text

pub record CountLine : Type 0 where
  pub product_id : ℕ
  pub variant_id : Option ℕ
  pub counted_quantity : ℤ
  pub note : Option Text

-- What a recount writes on the line that is there.
abbrev pub recounted : Context → (expected : ℤ) → CountLine → StocktakeLine → StocktakeLine
recounted ctx expected input line = record line {
  counted_quantity = input.counted_quantity;
  expected_quantity = expected;
  note = input.note;
  counted_by_user_id = ctx.user_id;
  counted_at = ctx.now;
}

abbrev pub new_line : Context → ℕ → (expected : ℤ) → CountLine → StocktakeLine
new_line ctx n expected input = record {
  id = ctx.random_uuid n;
  product_id = input.product_id;
  variant_id = input.variant_id;
  counted_quantity = input.counted_quantity;
  expected_quantity = expected;
  note = input.note;
  counted_by_user_id = ctx.user_id;
  counted_at = ctx.now;
}

-- Update, and create if nothing was there to update.
unfoldable pub put_line :
    Context → ℕ → (expected : ℤ) → CountLine → List StocktakeLine → List StocktakeLine
put_line ctx n expected input lines =
    let here = is_line input.product_id input.variant_id in
    if any here lines
    then map (λ l. if here l then recounted ctx expected input l else l) lines
    else lines ++ new_line ctx n expected input ∷ []

-- The loop of `count`, in order.
unfoldable pub put_lines :
    Context
    → ℕ
    → (expected : ℕ → Option ℕ → ℤ) → List CountLine
    → List StocktakeLine
    → List StocktakeLine
put_lines ctx n expected [] lines = lines
put_lines ctx n expected (input ∷ inputs) lines =
    put_lines ctx (suc n) expected inputs
      (put_line ctx n (expected input.product_id input.variant_id) input lines)

abbrev pub remove_by_id : ℕ → List StocktakeLine → List StocktakeLine
remove_by_id id = select (λ (l : StocktakeLine). not (l.id == id))

-- What a request makes of the count that it names.
abbrev pub with_lines : List StocktakeLine → Stocktake → Stocktake
with_lines lines s = record s { lines = lines }

abbrev pub as_cancelled : Context → Stocktake → Stocktake
as_cancelled ctx s = record s { status = StocktakeStatus.cancelled; cancelled_at = some ctx.now }

module _ {Db : Type 0} where
  -- A call on the stock alone.
  abbrev pub on_stock : {A : Type 0} → Action Db A → Action (Counting Db) A
  on_stock m c = let (r, d) = m c.stock in (r, record c { stock = d })

  abbrev pub opened : ℕ → Action (Counting Db) Stocktake
  opened id c = lift (require_open (find_stocktake id c.stocktakes)) c

  abbrev pub update : ℕ → (Stocktake → Stocktake) → Action (Counting Db) (Unit {0})
  update id change c = (ok tt, record c { stocktakes = update_stocktake id change c.stocktakes })

  -- One row more, unless its id is taken.
  abbrev pub insert : Stocktake → Action (Counting Db) Stocktake
  insert s c =
      if is_some (find_stocktake s.id c.stocktakes)
      then (err Error.unique, c)
      else (ok s, record c { stocktakes = c.stocktakes ++ s ∷ [] })

module _ {Db : Type 0} (w : StockWriter Db) (directory : Directory Db) (ctx : Context) where
  abbrev pub new_stocktake : CreateStocktake → ℕ → ℕ → Stocktake
  new_stocktake input location_id organization_id = record {
    id = or_else input.id (ctx.random_uuid 0);
    organization_id = organization_id;
    location_id = location_id;
    status = StocktakeStatus.open_count;
    note = input.note;
    started_by_user_id = ctx.user_id;
    posted_at = none;
    posted_by_user_id = none;
    cancelled_at = none;
    lines = [];
  }

  unfoldable pub create : CreateStocktake → Action (Counting Db) Stocktake
  unfolding location_of require_organization_id
  create input = do
    location_id ← on_stock (location_of w directory ctx input.location_id)
    (λ c.
        lift
          (throw_if
            (any (λ (s : Stocktake). (s.location_id == location_id) && is_open s.status)
              c.stocktakes)
            Error.conflict)
          c)
    organization_id ← lift (require_organization_id ctx)
    insert (new_stocktake input location_id organization_id)

  unfoldable pub count : ℕ → List CountLine → Action (Counting Db) StocktakeView
  unfolding assert_countable on_hand_by_line put_lines find_one require_organization_id
  count id inputs = do
    s ← opened id
    organization_id ← lift (require_organization_id ctx)
    (λ c.
        lift
          (assert_countable false (directory.products c.stock)
            (map (λ (l : CountLine). (l.product_id, l.variant_id)) inputs))
          c)
    (λ c.
        let expected =
          on_hand_by_line w s.location_id (map (λ (l : CountLine). l.product_id) inputs) c.stock in
        update id (λ row. with_lines (put_lines ctx 0 expected inputs row.lines) row) c)
    find_one w id

  unfoldable pub remove_line : ℕ → ℕ → Option ℕ → Action (Counting Db) StocktakeView
  unfolding find_one
  remove_line id product_id variant_id = do
    s ← opened id
    line ← lift (elim (find (is_line product_id variant_id) s.lines) [
      | none ↦ err Error.not_found
      | some l ↦ ok l
    ])
    update id (λ row. with_lines (remove_by_id line.id row.lines) row)
    find_one w id

  unfoldable pub cancel : ℕ → Action (Counting Db) StocktakeView
  unfolding find_one
  cancel id = do s ← opened id; update id (as_cancelled ctx); find_one w id
