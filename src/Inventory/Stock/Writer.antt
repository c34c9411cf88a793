-- ===== src/Inventory/Stock/Writer.antt =====
-- `StockWriter`: what src/modules/inventory/stock.service.ts asks of the database, and what it relies
-- on. The database is no code of this repository, so it is a parameter. A `Db` is the state of the
-- tables as one organization sees them.
use stock_mgt.Prelude.{
  ℕ, ◌≤◌, ◌≡◌, ◌≢◌, Option, none, some, List, [], ◌∷◌, ◌++◌, map, if◌then◌else◌,
}
use stock_mgt.Prelude.Int.{ℤ, ◌+ℤ◌}
use stock_mgt.Prelude.Lists.{sum_by}
use stock_mgt.Inventory.Stock.Tables.{
  Key, key_eq, StockMovement, StockBalance, StockBatch, ProductVariant,
}

pub record StockWriter (Db : Type 0) : Type 0 where
  -- findMany: the rows of each table
  pub movements : Db → List StockMovement
  pub balances : Db → List StockBalance
  pub batches : Db → List StockBatch
  pub variants : Db → List ProductVariant
  -- create and createMany; `none` is a unique constraint that failed (P2002)
  pub create_movements : List StockMovement → Db → Option Db
  pub create_balances : List StockBalance → Db → Option Db
  pub create_batches : List StockBatch → Db → Option Db
  -- updateMany with an increment of the quantity: the count of rows, and the new state
  pub update_balances : Key → ℤ → Db → ℕ × Db

abbrev pub bump : Key → ℤ → StockBalance → StockBalance
bump k delta b = if key_eq k b.key then record b { quantity = b.quantity +ℤ delta } else b

-- How many rows a `where` matches.
abbrev pub rows_at : Key → List StockBalance → ℕ
rows_at k = sum_by (λ b. if key_eq k b.key then 1 else 0)

module _ {Db : Type 0} (w : StockWriter Db) where
  -- The tables after a write that touches movements, balances or batches alone.
  abbrev pub Wrote : Db → Db → List StockMovement → List StockBalance → List StockBatch → Type 0
  Wrote d d' ms bs lots =
      (w.movements d' ≡ ms)
      × (w.balances d' ≡ bs)
      × (w.batches d' ≡ lots)
      × (w.variants d' ≡ w.variants d)

  -- What the database documents: an insert adds its rows to one table, or fails on a unique index; an
  -- `updateMany` changes the rows that match and counts them; and the unique indexes on
  -- `stock_balances` keep one row for each key.
  pub record IsDatabase : Type 0 where
    pub create_movements_lem :
        (ms : List StockMovement) (d d' : Db)
        → w.create_movements ms d ≡ some d'
        → Wrote d d' (ms ++ w.movements d) (w.balances d) (w.batches d)
    pub create_balances_lem :
        (bs : List StockBalance) (d d' : Db)
        → w.create_balances bs d ≡ some d'
        → Wrote d d' (w.movements d) (bs ++ w.balances d) (w.batches d)
    pub create_batches_lem :
        (lots : List StockBatch) (d d' : Db)
        → w.create_batches lots d ≡ some d'
        → Wrote d d' (w.movements d) (w.balances d) (lots ++ w.batches d)
    pub update_balances_lem :
        (k : Key) (delta : ℤ) (d : Db)
        → ((w.update_balances k delta d).0 ≡ rows_at k (w.balances d))
          × Wrote d
              (w.update_balances k delta d).1
              (w.movements d)
              (map (bump k delta) (w.balances d))
              (w.batches d)
    pub one_row : (k : Key) (d : Db) → rows_at k (w.balances d) ≤ 1
    pub refused_row :
        (b : StockBalance) (d : Db)
        → w.create_balances (b ∷ []) d ≡ none
        → 1 ≤ rows_at b.key (w.balances d)
    -- The database mints the id of a row that comes without one, and it is new.
    pub minted : (m : StockMovement) (d : Db) → m.id ≡ none → w.create_movements (m ∷ []) d ≢ none
