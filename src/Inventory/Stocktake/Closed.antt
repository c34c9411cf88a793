-- ===== src/Inventory/Stocktake/Closed.antt =====
-- The life of a count (src/modules/inventory/stocktake.service.ts): it is open, then posted or
-- cancelled, and from then on no request changes it. `Step` is one request that returned.
use stock_mgt.Prelude.{ℕ, ◌≡◌, refl, sym, false, Option, some, List, []}
use mathlib.Core.Path.{subst}
use stock_mgt.Prelude.Result.{Result, ok}
use stock_mgt.Inventory.Stock.Tables.{Context}
use stock_mgt.Inventory.Stock.Writer.{StockWriter, IsDatabase}
use stock_mgt.Inventory.Stock.Calls.{Done, Done-eq, Done-map}
use stock_mgt.Inventory.Stock.Operations.{Directory}
use stock_mgt.Inventory.Stocktake.Rows.{Stocktake, Counting, StocktakeView, find_stocktake, is_open}
use stock_mgt.Inventory.Stocktake.Count.{
  CreateStocktake, CountLine, create, count, remove_line, cancel,
}
use stock_mgt.Inventory.Stocktake.Post.{post, as_posted}
use stock_mgt.Inventory.Stocktake.Settle.{PostedFrom, post-PostedFrom}
use stock_mgt.Inventory.Stocktake.Requests.{found_by_id}
use stock_mgt.Inventory.Stocktake.Edits.{
  Edit, Edit-closed, Edit-Distinct, AllDistinct, cancel-Edit, remove_line-Edit, count-Edit,
  create-Edit,
}

module _ {Db : Type 0} (w : StockWriter Db) (directory : Directory Db) where
  -- A request on the counts that returned, by anybody; or any other, which changes the stock alone.
  pub data Step : Counting Db → Counting Db → Type 0 where
    created :
        (ctx : Context) (input : CreateStocktake) {c c' : Counting Db} {s : Stocktake}
        → create w directory ctx input c ≡ (ok s, c')
        → Step c c'
    counted :
        (ctx : Context) (id : ℕ) (inputs : List CountLine) {c c' : Counting Db} {r : StocktakeView}
        → count w directory ctx id inputs c ≡ (ok r, c')
        → Step c c'
    line_removed :
        (ctx : Context) (id product_id : ℕ) (variant_id : Option ℕ) {c c' : Counting Db}
        {r : StocktakeView}
        → remove_line w directory ctx id product_id variant_id c ≡ (ok r, c')
        → Step c c'
    called_off :
        (ctx : Context) (id : ℕ) {c c' : Counting Db} {r : StocktakeView}
        → cancel w directory ctx id c ≡ (ok r, c')
        → Step c c'
    settled :
        (ctx : Context) (id : ℕ) {c c' : Counting Db} {r : StocktakeView × ℕ}
        → post w directory ctx id c ≡ (ok r, c')
        → Step c c'
    stock_moved : (c : Counting Db) (d' : Db) → Step c (record c { stock = d' })

  pub data Reach (start : Counting Db) : Counting Db → Type 0 where
    here : Reach start start
    next : {c c' : Counting Db} → Reach start c → Step c c' → Reach start c'

module _ {Db : Type 0} (w : StockWriter Db) (laws : IsDatabase w) (directory : Directory Db) where
  post-Edit :
      (ctx : Context) (id : ℕ) (c : Counting Db)
      → Done (λ _ c'. Edit c.stocktakes c'.stocktakes) (post w directory ctx id c)
  unfolding PostedFrom
  post-Edit ctx id c =
      Done-map _
        (λ _ c' h.
          let (s, found, is_open_s, (settles, rows)) = h in
          subst (Edit c.stocktakes) (sym rows) (
            Edit.changed s.id s (as_posted w ctx) (found_by_id id s c.stocktakes found) is_open_s
              (λ x. refl) (λ row apart. apart)))
        (post-PostedFrom w laws directory ctx id c)

  Step-Edit : {c c' : Counting Db} → Step w directory c c' → Edit c.stocktakes c'.stocktakes
  Step-Edit {c} {c'} (Step.created ctx input e) =
      (Done-eq _ c' (create-Edit w directory ctx input c) e).1
  Step-Edit {c} {c'} (Step.counted ctx id inputs e) =
      (Done-eq _ c' (count-Edit w directory ctx id inputs c) e).1
  Step-Edit {c} {c'} (Step.line_removed ctx id product_id variant_id e) =
      (Done-eq _ c' (remove_line-Edit w directory ctx id product_id variant_id c) e).1
  Step-Edit {c} {c'} (Step.called_off ctx id e) =
      (Done-eq _ c' (cancel-Edit w directory ctx id c) e).1
  Step-Edit {c} {c'} (Step.settled ctx id e) = Done-eq _ c' (post-Edit ctx id c) e
  Step-Edit (Step.stock_moved c d') = Edit.nothing

  -- A count that has been posted or cancelled stays just as it is, its status and its lines included,
  -- through any sequence of requests.
  pub Reach-closed :
      {start c : Counting Db} (id : ℕ) (s : Stocktake)
      → Reach w directory start c
      → find_stocktake id start.stocktakes ≡ some s
      → is_open s.status ≡ false
      → find_stocktake id c.stocktakes ≡ some s
  Reach-closed id s Reach.here found shut = found
  Reach-closed id s (Reach.next r step) found shut =
      Edit-closed id s (Step-Edit step) (Reach-closed id s r found shut) shut

  -- After any sequence of requests from a database without counts, every count has at most one line for
  -- each product and option.
  pub Reach-Distinct :
      {start c : Counting Db}
      → start.stocktakes ≡ []
      → Reach w directory start c
      → AllDistinct c.stocktakes
  Reach-Distinct empty Reach.here = subst AllDistinct (sym empty) tt
  Reach-Distinct empty (Reach.next r step) = Edit-Distinct (Step-Edit step) (Reach-Distinct empty r)

module _ {Db : Type 0} (w : StockWriter Db) (directory : Directory Db) (ctx : Context) where
  -- A request that has changed no table of the stock, if it returned.
  abbrev pub Untouched : {A : Type 0} → Counting Db → Result A × Counting Db → Type 0
  Untouched c = Done (λ _ c'. c'.stock ≡ c.stock)

  -- Counting is not adjusting: a request that opens a count, fills it in, removes a line or cancels it
  -- leaves every table of the stock as it was.
  pub counting-Untouched :
      (input : CreateStocktake) (id product_id : ℕ) (variant_id : Option ℕ)
      (inputs : List CountLine) (c : Counting Db)
      → Untouched c (create w directory ctx input c)
        × Untouched c (count w directory ctx id inputs c)
        × Untouched c (remove_line w directory ctx id product_id variant_id c)
        × Untouched c (cancel w directory ctx id c)
  counting-Untouched input id product_id variant_id inputs c = (
    Done-map _ (λ _ _ h. h.0) (create-Edit w directory ctx input c),
    Done-map _ (λ _ _ h. h.0) (count-Edit w directory ctx id inputs c),
    Done-map _ (λ _ _ h. h.0) (remove_line-Edit w directory ctx id product_id variant_id c),
    Done-map _ (λ _ _ h. h.0) (cancel-Edit w directory ctx id c),
  )
