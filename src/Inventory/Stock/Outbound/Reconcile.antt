-- ===== src/Inventory/Stock/Outbound/Reconcile.antt =====
-- `recordOutbound` of src/modules/inventory/stock.service.ts as a whole: what a call that returns has
-- done to the ledger.
use stock_mgt.Prelude.{
  ℕ, ◌+◌, ◌≤◌, ◌≡◌, refl, ◌∙◌, ap, sym, true, false, List, [], ◌∷◌, arith, inl, inr, Bool-cases,
}
use stock_mgt.Prelude.Int.{ℤ, pos, neg, pos_part, ◌≤ℤ◌, int_laws}
use stock_mgt.Prelude.Lists.{sum_ℤ}
use stock_mgt.Prelude.Result.{ok}
use stock_mgt.Inventory.Fefo.{AllocatableBatch, Allocation, AllocationResult, allocate_fefo}
use stock_mgt.Inventory.Fefo.Cover.{total_taken, taken, stock_at, allocate_fefo-covers}
use stock_mgt.Inventory.Stock.Tables.{Key, key_eq, key_eq→eq, StockMovement, OutboundInput, Context}
use stock_mgt.Inventory.Stock.Writer.{StockWriter, IsDatabase}
use stock_mgt.Inventory.Stock.Calls.{Done, Done->>=, Checked, lift-Checked, Done-map}
use stock_mgt.Inventory.Stock.Service.Guards.{assert_positive-ok, assert_variant-same}
use stock_mgt.Inventory.Stock.Ledger.{Test, movements_at, Posted, Posted-same}
use stock_mgt.Inventory.Stock.Outbound.{out_key, available_batches, record_outbound}
use stock_mgt.Inventory.Stock.Outbound.Effect.{
  drawn, Outgoing, Covered, write_out-Posted, cover_shortfall-Covered,
}

-- Stock that the movement is not about: another product, option or place.
abbrev pub OtherStock : OutboundInput → Key → Type 0
OtherStock input k =
    k.product_id ≡ input.product_id
    → k.variant_id ≡ input.variant_id
    → k.location_id ≡ input.location_id
    → ⊥

pub drawn-OtherStock :
    (input : OutboundInput) (k : Key) (allocations : List Allocation)
    → OtherStock input k
    → drawn input allocations (key_eq k) ≡ pos 0
unfolding drawn
drawn-OtherStock input k [] other = refl
drawn-OtherStock input k (a ∷ rest) other =
    elim (Bool-cases (key_eq k (out_key input a.batch_id))) [
      | inl e ↦
          let same = key_eq→eq k (out_key input a.batch_id) e in
          absurd (
            other (ap (λ (x : Key). x.product_id) same) (ap (λ (x : Key). x.variant_id) same)
              (ap (λ (x : Key). x.location_id) same))
      | inr e ↦ rw (e, drawn-OtherStock input k rest other) (omega int_laws)
    ]

pos_of_positive : (q : ℤ) → pos 1 ≤ℤ q → q ≡ pos (pos_part q)
pos_of_positive q h = ground arith

-- A plan for a positive quantity takes that quantity, its shortfall included.
plan-total :
    (bs : List AllocatableBatch) (q : ℤ) (plan : AllocationResult)
    → pos 1 ≤ℤ q
    → allocate_fefo bs q ≡ ok plan
    → pos (total_taken plan.allocations + plan.shortfall) ≡ q
plan-total bs q plan h e =
    let n = pos_of_positive q h in
    let (r, runs, total, short, positive, bounded) =
      allocate_fefo-covers bs (pos_part q) (ground arith) in
    let e' : allocate_fefo bs (pos (pos_part q)) ≡ ok plan = ap (allocate_fefo bs) (sym n) ∙ e in
    let same : r ≡ plan = cc in rw (← same, total) (sym n)

plan-bounded :
    (bs : List AllocatableBatch) (q : ℤ) (plan : AllocationResult) (bs' : List AllocatableBatch)
    → pos 1 ≤ℤ q
    → allocate_fefo bs q ≡ ok plan
    → bs ≡ bs'
    → (id : ℕ) → taken id plan.allocations ≤ stock_at id bs'
plan-bounded bs q plan bs' h e same_batches id =
    let n = pos_of_positive q h in
    let (r, runs, total, short, positive, bounded) =
      allocate_fefo-covers bs (pos_part q) (ground arith) in
    let e' : allocate_fefo bs (pos (pos_part q)) ≡ ok plan = ap (allocate_fefo bs) (sym n) ∙ e in
    let same : r ≡ plan = cc in rw (← same_batches, ← same) (bounded id)

module _ {Db : Type 0} (w : StockWriter Db) (laws : IsDatabase w) (ctx : Context) where
  unfoldable pub Recorded : OutboundInput → Db → List StockMovement → Db → Type 0
  Recorded input d ms d' =
      (allocations : List Allocation) × Posted w d d' (drawn input allocations)
      × (sum_ℤ (λ (m : StockMovement). m.quantity) ms ≡ neg input.quantity)
      × (input.force ≡ false
          → (id : ℕ) → taken id allocations ≤ stock_at id (available_batches w ctx input d))
      × ((t : Test) → drawn input allocations t ≡ movements_at t ms)
      × Outgoing input ms
      × (pos 1 ≤ℤ input.quantity)

  pub record_outbound-Recorded :
      (input : OutboundInput) (d : Db) → Done (Recorded input d) (record_outbound w ctx input d)
  unfolding record_outbound Recorded
  record_outbound-Recorded input d = Done->>= (Checked _ d) _ _ _ (lift-Checked _ d) λ _ d1 h1.
      Done->>= (λ _ d2. d2 ≡ d1) _ _ _ (assert_variant-same w ctx _ _ _ d1)
        λ _ d2 h2.
          Done->>= (λ bs d3. (d3 ≡ d2) × (bs ≡ available_batches w ctx input d2)) _ _ _
            (Done.returned _ _ (refl, refl))
            λ available d3 h3. Done->>= (Checked _ d3) _ _ _ (lift-Checked _ d3) λ plan d4 h4.
              Done->>= (Covered w laws ctx input plan d4) _ _ _
                (cover_shortfall-Covered w laws ctx input plan d4)
                λ allocations d5 h5.
                  Done->>= (Checked _ d5) _ _ _ (lift-Checked _ d5) λ organization_id d6 h6.
                    let back = h4.0 ∙ h3.0 ∙ h2 ∙ h1.0 in
                    Done-map _
                      (λ ms d' written. (
                        allocations,
                        Posted-same w d d6 d' _ (ap w.movements h6.0 ∙ h5.0 ∙ ap w.movements back)
                            (ap w.balances h6.0 ∙ h5.1 ∙ ap w.balances back) written.0,
                        rw (written.1, h5.2)
                            (ap neg (
                              plan-total available input.quantity plan (assert_positive-ok _ h1.1)
                                h4.1)),
                        (λ unforced id. rw (h5.3 unforced) (
                            plan-bounded available input.quantity plan
                              (available_batches w ctx input d) (assert_positive-ok _ h1.1) h4.1
                              (h3.1 ∙ ap (available_batches w ctx input) (h2 ∙ h1.0)) id)),
                        written.2,
                        written.3,
                        assert_positive-ok _ h1.1,
                      ))
                      (write_out-Posted w laws ctx input organization_id true _ allocations d6)
