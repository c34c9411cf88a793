-- ===== src/Inventory/Stock/Lots/Effect.antt =====
-- What `recordNewLots` does to the ledger.
use stock_mgt.Prelude.{ℕ, ◌≡◌, refl, ◌∙◌, ap, List, [], ◌∷◌, ◌++◌, map, inl, inr, Option-cases}
use stock_mgt.Prelude.Int.{◌+ℤ◌, +ℤ_comm, int_laws}
use stock_mgt.Prelude.Lists.{sum_ℤ-append}
use stock_mgt.Prelude.Result.{ok}
use stock_mgt.Inventory.Stock.Tables.{
  key_eq, Key, StockMovement, StockBalance, StockBatch, NewLotLine, Context,
}
use stock_mgt.Inventory.Stock.Writer.{StockWriter, IsDatabase}
use stock_mgt.Inventory.Stock.Calls.{
  insert_or_throw, Done, Done-eq, Done->>=, Done-map, Checked, lift-Checked,
}
use stock_mgt.Inventory.Stock.Ledger.{
  Test, movements_at, balances_at, moved_where, held_where, held, Posted, Posted-Reconciles,
  Reconciles,
}
use stock_mgt.Inventory.Stock.Lots.{
  lot_batch, lot_movement, lot_balance, with_ids, brought, record_new_lots,
}

module _ {Db : Type 0} (w : StockWriter Db) (laws : IsDatabase w) (ctx : Context) where
  -- Only the two tables of the ledger are followed.
  abbrev Tables : List StockMovement → List StockBalance → Unit {0} → Db → Type 0
  Tables ms bs _ d' = (w.movements d' ≡ ms) × (w.balances d' ≡ bs)

  insert_batches :
      (lots : List StockBatch) (d : Db)
      → Done (Tables (w.movements d) (w.balances d)) (insert_or_throw (w.create_batches lots) d)
  insert_batches lots d = elim (Option-cases (w.create_batches lots d)) [
    | inl c ↦ rw (c, insert_or_throw) (Done.threw _ _)
    | inr (d', c) ↦
        let wrote = laws.create_batches_lem lots d d' c in
        rw (c, insert_or_throw) (Done.returned _ _ (wrote.0, wrote.1))
  ]

  insert_movements :
      (ms : List StockMovement) (d : Db)
      → Done
          (Tables (ms ++ w.movements d) (w.balances d))
          (insert_or_throw (w.create_movements ms) d)
  insert_movements ms d = elim (Option-cases (w.create_movements ms d)) [
    | inl c ↦ rw (c, insert_or_throw) (Done.threw _ _)
    | inr (d', c) ↦
        let wrote = laws.create_movements_lem ms d d' c in
        rw (c, insert_or_throw) (Done.returned _ _ (wrote.0, wrote.1))
  ]

  insert_balances :
      (bs : List StockBalance) (d : Db)
      → Done
          (Tables (w.movements d) (bs ++ w.balances d))
          (insert_or_throw (w.create_balances bs) d)
  insert_balances bs d = elim (Option-cases (w.create_balances bs d)) [
    | inl c ↦ rw (c, insert_or_throw) (Done.threw _ _)
    | inr (d', c) ↦
        let wrote = laws.create_balances_lem bs d d' c in
        rw (c, insert_or_throw) (Done.returned _ _ (wrote.0, wrote.1))
  ]

  movements_at-lots :
      (o : ℕ) (rows : List (NewLotLine × ℕ)) (k : Test)
      → movements_at k (map (lot_movement w ctx o) rows) ≡ brought rows k
  unfolding brought
  movements_at-lots o [] k = refl
  movements_at-lots o (r ∷ rows) k = rw (movements_at-lots o rows k)

  balances_at-lots :
      (o : ℕ) (rows : List (NewLotLine × ℕ)) (k : Test)
      → balances_at k (map (lot_balance w ctx o) rows) ≡ brought rows k
  unfolding brought
  balances_at-lots o [] k = refl
  balances_at-lots o (r ∷ rows) k = rw (balances_at-lots o rows k)

  moved-grown :
      (k : Test) (ms : List StockMovement) (d d' : Db)
      → w.movements d' ≡ ms ++ w.movements d
      → moved_where w k d' ≡ moved_where w k d +ℤ movements_at k ms
  unfolding moved_where
  moved-grown k ms d d' e = rw (e, sum_ℤ-append) (+ℤ_comm _ _)

  held-grown :
      (k : Test) (bs : List StockBalance) (d d' : Db)
      → w.balances d' ≡ bs ++ w.balances d
      → held_where w k d' ≡ held_where w k d +ℤ balances_at k bs
  unfolding held_where
  held-grown k bs d d' e = rw (e, sum_ℤ-append) (+ℤ_comm _ _)

  abbrev pub Stocked : List NewLotLine → Db → Unit {0} → Db → Type 0
  Stocked lines d _ d' = Posted w d d' (brought (with_ids ctx.random_uuid 0 lines))

  pub record_new_lots-Stocked :
      (lines : List NewLotLine) (d : Db) → Done (Stocked lines d) (record_new_lots w ctx lines d)
  unfolding record_new_lots brought
  record_new_lots-Stocked [] d = Done.returned _ _ λ k. (omega int_laws, omega int_laws)
  record_new_lots-Stocked (line ∷ lines) d =
      Done->>= (Checked _ d) _ _ _ (lift-Checked _ d) λ _ d1 h1.
        Done->>= (Checked _ d1) _ _ _ (lift-Checked _ d1) λ _ d2 h2.
          Done->>= (Checked _ d2) _ _ _ (lift-Checked _ d2) λ o d3 h3.
            let rows = with_ids ctx.random_uuid 0 (line ∷ lines) in
            let back = h3.0 ∙ h2.0 ∙ h1.0 in
            Done->>= (Tables _ _) _ _ _ (insert_batches (map (lot_batch w ctx o) rows) d3)
              λ _ d4 h4.
                Done->>= (Tables _ _) _ _ _ (insert_movements (map (lot_movement w ctx o) rows) d4)
                  λ _ d5 h5.
                    Done-map _
                      (λ _ d6 h6 k. (
                        moved-grown k (map (lot_movement w ctx o) rows) d d6 (
                              h6.0
                              ∙ h5.0
                              ∙ ap (λ x. map (lot_movement w ctx o) rows ++ x)
                                  (h4.0 ∙ ap w.movements back))
                            ∙ ap (λ x. moved_where w k d +ℤ x) (movements_at-lots o rows k),
                        held-grown k (map (lot_balance w ctx o) rows) d d6 (
                              h6.1
                              ∙ ap (λ x. map (lot_balance w ctx o) rows ++ x)
                                  (h5.1 ∙ h4.1 ∙ ap w.balances back))
                            ∙ ap (λ x. held_where w k d +ℤ x) (balances_at-lots o rows k),
                      ))
                      (insert_balances (map (lot_balance w ctx o) rows) d5)

  -- Lines that are recorded all at once bring into each balance what the lines for it say, and the
  -- ledger reconciles as before.
  pub record_new_lots-Reconciles :
      (lines : List NewLotLine) (d : Db) {d' : Db}
      → record_new_lots w ctx lines d ≡ (ok tt, d')
      → Reconciles w d
      → Reconciles w d'
        × ((k : Key)
            → held w k d' ≡ held w k d +ℤ brought (with_ids ctx.random_uuid 0 lines) (key_eq k))
  record_new_lots-Reconciles lines d {d'} e before =
      let posted = Done-eq tt d' (record_new_lots-Stocked lines d) e in
      (Posted-Reconciles w d d' _ posted before, λ k. (posted (key_eq k)).1)
