-- ===== src/Inventory/Stock/Ledger/Post.antt =====
-- The two writes that make up every change of the stock: a movement, and its balance.
use stock_mgt.Prelude.{◌≡◌, ◌∙◌, ap, [], ◌∷◌, inl, inr, Option-cases}
use stock_mgt.Prelude.Int.{ℤ, ◌+ℤ◌, +ℤ_comm}
use stock_mgt.Prelude.Result.{Result, ok, err}
use stock_mgt.Inventory.Stock.Tables.{Key, StockMovement, Context}
use stock_mgt.Inventory.Stock.Writer.{StockWriter, IsDatabase}
use stock_mgt.Inventory.Stock.Calls.{Done, insert_or_throw}
use stock_mgt.Inventory.Stock.Service.{apply_to_balance}
use stock_mgt.Inventory.Stock.Ledger.{
  on_key, movements_at, balances_at, Test, moved_where, held_where, apply_to_balance-Moves, Moves,
}

module _ {Db : Type 0} (w : StockWriter Db) where
  abbrev pub Inserted : StockMovement → Db → Unit {0} → Db → Type 0
  Inserted m d _ d' =
      (t : Test)
      → (moved_where w t d' ≡ moved_where w t d +ℤ on_key t m.key m.quantity)
        × (held_where w t d' ≡ held_where w t d)

  abbrev pub Applied : Key → ℤ → Db → Unit {0} → Db → Type 0
  Applied key delta d _ d' =
      (t : Test)
      → (moved_where w t d' ≡ moved_where w t d)
        × (held_where w t d' ≡ held_where w t d +ℤ on_key t key delta)

module _ {Db : Type 0} (w : StockWriter Db) (laws : IsDatabase w) where
  pub insert-Inserted :
      (m : StockMovement) (d : Db)
      → Done (Inserted w m d) (insert_or_throw (w.create_movements (m ∷ [])) d)
  unfolding moved_where held_where
  insert-Inserted m d = elim (Option-cases (w.create_movements (m ∷ []) d)) [
    | inl c ↦ rw (c, insert_or_throw) (Done.threw _ _)
    | inr (d', c) ↦
        let wrote = laws.create_movements_lem (m ∷ []) d d' c in
        rw (c, insert_or_throw)
          (Done.returned _ _
            λ t. (ap (movements_at t) wrote.0 ∙ +ℤ_comm _ _, ap (balances_at t) wrote.1))
  ]

  pub apply-Applied :
      (ctx : Context) (key : Key) (delta : ℤ) (d : Db)
      → Done (Applied w key delta d) (apply_to_balance w ctx key delta d)
  unfolding moved_where
  apply-Applied ctx key delta d =
      go (apply_to_balance w ctx key delta d) (apply_to_balance-Moves w laws ctx key delta d)
    where
      go :
          (x : Result (Unit {0}) × Db)
          → Moves w laws ctx key delta d x
          → Done (Applied w key delta d) x
      go (ok _, d') h = Done.returned _ _ λ t. (ap (movements_at t) h.0, h.3 t)
      go (err e, d') h = Done.threw _ _
