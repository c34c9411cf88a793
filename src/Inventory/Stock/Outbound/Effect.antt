-- ===== src/Inventory/Stock/Outbound/Effect.antt =====
-- What the loop and the shortfall of `recordOutbound` do to the ledger.
use stock_mgt.Prelude.{
  ℕ, ◌+◌, ◌≡◌, refl, ◌∙◌, ap, Bool, false, not, List, [], ◌∷◌, arith, ltb, inl, inr, Bool-cases,
  Option-cases,
}
use stock_mgt.Prelude.Int.{ℤ, pos, neg, abs, ◌-ℤ◌, int_laws, +ℤ_assoc}
use stock_mgt.Prelude.Lists.{sum_ℤ, All, sum_by-append}
use stock_mgt.Prelude.Result.{ok, Error, throw_if}
use stock_mgt.Inventory.Fefo.{AllocatableBatch, Allocation, AllocationResult}
use stock_mgt.Inventory.Fefo.Cover.{total_taken}
use stock_mgt.Inventory.Stock.Tables.{StockMovement, StockBatch, OutboundInput, Context}
use stock_mgt.Inventory.Stock.Writer.{StockWriter, IsDatabase}
use stock_mgt.Inventory.Stock.Calls.{Done, Done->>=, insert_or_throw, Checked, lift-Checked}
use stock_mgt.Inventory.Stock.Ledger.{Test, on_key, movements_at, Posted}
use stock_mgt.Inventory.Stock.Ledger.Post.{Inserted, Applied, insert-Inserted, apply-Applied}
use stock_mgt.Inventory.Stock.Outbound.{
  out_key, outbound_movement, write_out, cover_shortfall, batch_to_bear_shortfall,
  first_or_placeholder, placeholder,
}

-- What a list of allocations changes on the keys of a test.
unfoldable pub drawn : OutboundInput → List Allocation → Test → ℤ
drawn input as' t = sum_ℤ (λ a. on_key t (out_key input a.batch_id) (neg (pos a.quantity))) as'

neg-abs : (n : ℕ) → neg (pos n) ≡ neg (pos (abs (neg (pos n))))
unfolding ◌-ℤ◌
neg-abs n = ground arith

-- Movements out of the stock that an input is about.
abbrev pub Outgoing : OutboundInput → List StockMovement → Type 0
Outgoing input = All λ (m : StockMovement).
    (m.key ≡ out_key input m.key.batch_id) × (m.quantity ≡ neg (pos (abs m.quantity)))

module _ {Db : Type 0} (w : StockWriter Db) (laws : IsDatabase w) (ctx : Context) where
  abbrev pub Written : OutboundInput → List Allocation → Db → List StockMovement → Db → Type 0
  Written input as' d ms d' =
      Posted w d d' (drawn input as')
      × (sum_ℤ (λ (m : StockMovement). m.quantity) ms ≡ neg (pos (total_taken as')))
      × ((t : Test) → drawn input as' t ≡ movements_at t ms)
      × Outgoing input ms

  pub write_out-Posted :
      (input : OutboundInput) (organization_id : ℕ) (first forced : Bool) (as' : List Allocation)
      (d : Db)
      → Done (Written input as' d) (write_out w ctx input organization_id first forced as' d)
  unfolding write_out drawn
  write_out-Posted input organization_id first forced [] d =
      Done.returned _ _ ((λ k. (omega int_laws, omega int_laws)), omega int_laws, (λ t. refl), tt)
  write_out-Posted input organization_id first forced (a ∷ as') d =
      let m = outbound_movement w ctx input organization_id first forced a in
      Done->>= (Inserted w m d) _ _ _ (insert-Inserted w laws m d) λ _ d1 h1.
        Done->>= (Applied w m.key m.quantity d1) _ _ _
          (apply-Applied w laws ctx m.key m.quantity d1)
          λ _ d2 h2.
            Done->>= (Written input as' d2) _ _ _
              (write_out-Posted input organization_id false forced as' d2)
              λ ms d3 h3. Done.returned _ _ (
                λ k. (
                  rw ((h3.0 k).0, (h2 k).0, (h1 k).0) (+ℤ_assoc _ _ _),
                  rw ((h3.0 k).1, (h2 k).1, (h1 k).1) (+ℤ_assoc _ _ _),
                ),
                rw h3.1 (omega int_laws),
                (λ t. rw (h3.2 t)),
                ((refl, neg-abs a.quantity), h3.3),
              )

  -- Covering a shortfall opens a lot at most: no movement and no balance changes, and the allocations
  -- then come to the plan and its shortfall.
  abbrev pub Covered : OutboundInput → AllocationResult → Db → List Allocation → Db → Type 0
  Covered input plan d allocations d' =
      (w.movements d' ≡ w.movements d)
      × (w.balances d' ≡ w.balances d)
      × (total_taken allocations ≡ total_taken plan.allocations + plan.shortfall)
      × (input.force ≡ false → allocations ≡ plan.allocations)

  abbrev pub Opened : Db → ℕ → Db → Type 0
  Opened d _ d' = (w.movements d' ≡ w.movements d) × (w.balances d' ≡ w.balances d)

  pub insert_batch-Opened :
      (lot : StockBatch) (d : Db)
      → Done (λ _. Opened d 0) (insert_or_throw (w.create_batches (lot ∷ [])) d)
  insert_batch-Opened lot d = elim (Option-cases (w.create_batches (lot ∷ []) d)) [
    | inl c ↦ rw (c, insert_or_throw) (Done.threw _ _)
    | inr (d', c) ↦
        let wrote = laws.create_batches_lem (lot ∷ []) d d' c in
        rw (c, insert_or_throw) (Done.returned _ _ (wrote.0, wrote.1))
  ]

  first_or_placeholder-Opened :
      (input : OutboundInput) (known : List AllocatableBatch) (d : Db)
      → Done (Opened d) (first_or_placeholder w ctx input known d)
  unfolding first_or_placeholder
  first_or_placeholder-Opened input (first ∷ others) d = Done.returned _ _ (refl, refl)
  first_or_placeholder-Opened input [] d =
      Done->>= (Checked _ d) _ _ _ (lift-Checked _ d) λ organization_id d1 h1.
        Done->>= (λ _. Opened d1 0) _ _ _
          (insert_batch-Opened (placeholder w ctx input organization_id) d1)
          λ _ d2 h2. Done.returned _ _ (h2.0 ∙ ap w.movements h1.0, h2.1 ∙ ap w.balances h1.0)

  bear-Opened :
      (input : OutboundInput) (d : Db) → Done (Opened d) (batch_to_bear_shortfall w ctx input d)
  unfolding batch_to_bear_shortfall
  bear-Opened input d = elim (Option-cases input.batch_id) [
    | inr (id, e) ↦ rw e (Done.returned _ _ (refl, refl))
    | inl e ↦ rw e (first_or_placeholder-Opened input _ d)
  ]

  refuse :
      (force : Bool)
      → force ≡ false
      → {a : Unit {0}} → throw_if (not force) Error.conflict ≡ ok a
      → ⊥
  refuse force h e = ground arith

  pub cover_shortfall-Covered :
      (input : OutboundInput) (plan : AllocationResult) (d : Db)
      → Done (Covered input plan d) (cover_shortfall w ctx input plan d)
  unfolding cover_shortfall
  cover_shortfall-Covered input plan d = elim (Bool-cases (ltb 0 plan.shortfall)) [
    | inr e ↦ rw e (Done.returned _ _ (refl, refl, ground arith, λ _. refl))
    | inl e ↦ rw e (
        Done->>= (Checked _ d) _ _ _ (lift-Checked _ d) λ _ d1 h1.
          Done->>= (Checked _ d1) _ _ _ (lift-Checked _ d1) λ _ d2 h2.
            Done->>= (Opened d2) _ _ _ (bear-Opened input d2) λ batch_id d3 h3. Done.returned _ _ (
              h3.0 ∙ ap w.movements (h2.0 ∙ h1.0),
              h3.1 ∙ ap w.balances (h2.0 ∙ h1.0),
              omega (
                arith,
                sum_by-append (λ (x : Allocation). x.quantity) plan.allocations
                    (record { batch_id = batch_id; quantity = plan.shortfall } ∷ []),
              ),
              λ unforced. absurd (refuse input.force unforced h1.1),
            ))
  ]
