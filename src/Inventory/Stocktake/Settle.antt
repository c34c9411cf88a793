-- ===== src/Inventory/Stocktake/Settle.antt =====
-- After `post` of src/modules/inventory/stocktake.service.ts the stock is what was counted.
use stock_mgt.Prelude.{ℕ, ◌≡◌, refl, ◌∙◌, ap, sym, true, none, some, map}
use mathlib.Core.Path.{subst}
use stock_mgt.Prelude.Lists.{All, All-imp}
use stock_mgt.Prelude.Result.{ok}
use stock_mgt.Inventory.Stock.Tables.{Context}
use stock_mgt.Inventory.Stock.Writer.{StockWriter, IsDatabase}
use stock_mgt.Inventory.Stock.Calls.{
  Done, Done-eq, Done->>=, Done-map, Checked, lift-Checked, transaction-Done,
}
use stock_mgt.Inventory.Stock.Ledger.{held_where}
use stock_mgt.Inventory.Stock.Operations.{Directory}
use stock_mgt.Inventory.Stock.OnHand.{Place, on_hand}
use stock_mgt.Inventory.Stocktake.Rows.{
  Stocktake, StocktakeLine, Counting, update_stocktake, on_hand_by_line, find_stocktake,
  StocktakeView, is_open,
}
use stock_mgt.Inventory.Stocktake.Post.{as_posted, correct_stock, post_transaction, post}
use stock_mgt.Inventory.Stocktake.Requests.{
  find-update, found_by_id, find_one-same, opened-Done, on_stock-Done,
}
use stock_mgt.Inventory.Stocktake.Post.Short.{line_place}
use stock_mgt.Inventory.Stocktake.Post.Effect.{expected_for, correct_stock-settled}
use stock_mgt.Inventory.Stocktake.Sheet.{
  Distinct, line_at, counted_or, quantity_for-balances_at, mem-products, of_lines-counted,
}

module _ {Db : Type 0} (w : StockWriter Db) (laws : IsDatabase w) (directory : Directory Db)
    (ctx : Context) where
  expected-on_hand :
      (s : Stocktake) (d : Db)
      → All
          (λ (l : StocktakeLine).
            expected_for w laws directory ctx s d l.product_id l.variant_id
            ≡ on_hand w (line_place s l.product_id l) d)
          s.lines
  unfolding on_hand_by_line held_where
  expected-on_hand s d =
      All-imp
        (λ l h.
          quantity_for-balances_at (line_place s l.product_id l)
            (map (λ (x : StocktakeLine). x.product_id) s.lines) h (w.balances d))
        s.lines (mem-products s.lines)

  -- What a count makes of the stock at every place.
  abbrev pub Settled : Stocktake → Db → Db → Type 0
  Settled s d d' = (p : Place) → on_hand w p d' ≡ counted_or (on_hand w p d) (line_at s p s.lines)

  correct_stock-Settled :
      (s : Stocktake) (d : Db)
      → Done (λ _ d'. Distinct s.lines → Settled s d d') (correct_stock w directory ctx s d)
  correct_stock-Settled s d =
      Done-map _
        (λ _ d' h apart p.
          h p
          ∙ of_lines-counted s p (expected_for w laws directory ctx s d) (λ q. on_hand w q d)
              s.lines apart (expected-on_hand s d))
        (correct_stock-settled w laws directory ctx s d)

  -- A posted count: the stock is settled, and the row says so.
  abbrev pub PostedAs : Stocktake → Counting Db → Counting Db → Type 0
  PostedAs s c c' =
      (Distinct s.lines → Settled s c.stock c'.stock)
      × (c'.stocktakes ≡ update_stocktake s.id (as_posted w ctx) c.stocktakes)

  post_transaction-PostedAs :
      (s : Stocktake) (c : Counting Db)
      → Done (λ _ c'. PostedAs s c c') (post_transaction w directory ctx s c)
  unfolding post_transaction
  post_transaction-PostedAs s c =
      Done->>= _ _ _ _
        (on_stock-Done (correct_stock w directory ctx s) c (correct_stock-Settled s c.stock))
        λ corrections c1 h1.
          Done->>=
            (λ _ c2.
              (c2.stock ≡ c1.stock)
              × (c2.stocktakes ≡ update_stocktake s.id (as_posted w ctx) c1.stocktakes))
            _ _ _ (Done.returned _ _ (refl, refl))
            λ _ c2 h2. Done.returned _ _ (
              (λ apart p. ap (on_hand w p) h2.0 ∙ h1.1 apart p),
              h2.1 ∙ ap (update_stocktake s.id (as_posted w ctx)) h1.0,
            )

  unfoldable pub PostedFrom : ℕ → Counting Db → StocktakeView × ℕ → Counting Db → Type 0
  PostedFrom id c _ c' =
      (s : Stocktake) × (find_stocktake id c.stocktakes ≡ some s)
      × (is_open s.status ≡ true)
      × PostedAs s c c'

  pub post-PostedFrom :
      (id : ℕ) (c : Counting Db) → Done (PostedFrom id c) (post w directory ctx id c)
  unfolding post PostedFrom
  post-PostedFrom id c = Done->>= _ _ _ _ (opened-Done id c) λ s c1 h1.
      Done->>= (Checked _ c1) _ _ _ (lift-Checked _ c1) λ _ c2 h2.
        let back = h2.0 ∙ h1.0 in
        Done->>= _ _ _ _ (transaction-Done _ c2 (post_transaction-PostedAs s c2))
          λ corrections c3 h3.
            Done->>= (λ _ c4. c4 ≡ c3) _ _ _ (find_one-same w id c3)
              λ shown c4 h4. Done.returned _ _ (
                s,
                h1.1,
                h1.2,
                (
                  (λ apart p.
                      ap (λ x. on_hand w p x.stock) h4
                      ∙ h3.0 apart p
                      ∙ ap (λ x. counted_or (on_hand w p x.stock) (line_at s p s.lines)) back),
                  ap (λ x. x.stocktakes) h4
                      ∙ h3.1
                      ∙ ap (λ x. update_stocktake s.id (as_posted w ctx) x.stocktakes) back,
                ),
              )

  -- Posting a count that has one line for each product and option leaves on hand, at each place that
  -- was counted, just what was counted there, and at every other place what was there before; and the
  -- count, which was open, is posted.
  pub post-settles :
      (id : ℕ) (c : Counting Db) {r : StocktakeView × ℕ} {c' : Counting Db} {s : Stocktake}
      → post w directory ctx id c ≡ (ok r, c')
      → find_stocktake id c.stocktakes ≡ some s
      → Distinct s.lines
      → ((p : Place)
          → on_hand w p c'.stock ≡ counted_or (on_hand w p c.stock) (line_at s p s.lines))
        × (is_open s.status ≡ true)
        × (find_stocktake s.id c'.stocktakes ≡ some (as_posted w ctx s))
  unfolding PostedFrom
  post-settles id c {r} {c'} {s} e here apart =
      let (s2, found, open_before, (settled, posted)) = Done-eq r c' (post-PostedFrom id c) e in
      let same : some s2 ≡ some s = sym found ∙ here in
      let is_s : s2 ≡ s = ap (λ o. elim o [ none ↦ s | some x ↦ x ]) same in
      let (open_s, (settled_s, posted_s)) =
        subst (λ (x : Stocktake). (is_open x.status ≡ true) × PostedAs x c c') is_s
          (open_before, (settled, posted)) in
      (
        settled_s apart,
        open_s,
        ap (find_stocktake s.id) posted_s
            ∙ find-update s.id (as_posted w ctx) c.stocktakes (λ x. refl)
                (found_by_id id s c.stocktakes here),
      )
