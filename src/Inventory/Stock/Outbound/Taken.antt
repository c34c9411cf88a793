-- ===== src/Inventory/Stock/Outbound/Taken.antt =====
-- `recordOutbound` of src/modules/inventory/stock.service.ts: what a call that returns has taken, and
-- what it has left.
use stock_mgt.Prelude.{◌≡◌, ◌∙◌, ap, List}
use stock_mgt.Prelude.Int.{pos, neg, ◌+ℤ◌, ◌≤ℤ◌, +ℤ-zero}
use stock_mgt.Prelude.Lists.{sum_ℤ}
use stock_mgt.Prelude.Result.{ok}
use stock_mgt.Inventory.Stock.Tables.{Key, key_eq, StockMovement, OutboundInput, Context}
use stock_mgt.Inventory.Stock.Writer.{StockWriter, IsDatabase}
use stock_mgt.Inventory.Stock.Calls.{Done-eq}
use stock_mgt.Inventory.Stock.Ledger.{held, movements_at, Posted-Reconciles, Reconciles}
use stock_mgt.Inventory.Stock.Outbound.{record_outbound}
use stock_mgt.Inventory.Stock.Outbound.Effect.{Outgoing}
use stock_mgt.Inventory.Stock.Outbound.Reconcile.{
  Recorded, record_outbound-Recorded, OtherStock, drawn-OtherStock,
}
use stock_mgt.Inventory.Stock.OnHand.{Place, place, at, on_hand, record_outbound-Changed}

module _ {Db : Type 0} (w : StockWriter Db) (laws : IsDatabase w) (ctx : Context) where
  -- A call that returns has taken out of what is on hand at its place just the quantity asked for, which
  -- is one or more, and has changed what is on hand at no other place. The movements that it returns go
  -- out of that place, add up to that quantity, and are what each balance has changed by. The balances
  -- of every other product, option and place are as they were, and every balance still equals the sum
  -- of its movements.
  pub record_outbound-Reconciles :
      (input : OutboundInput) (d : Db) {ms : List StockMovement} {d' : Db}
      → record_outbound w ctx input d ≡ (ok ms, d')
      → Reconciles w d
      → (pos 1 ≤ℤ input.quantity)
        × ((p : Place)
            → on_hand w p d' ≡ on_hand w p d +ℤ at p (place input.movement) (neg input.quantity))
        × Outgoing input ms
        × (sum_ℤ (λ (m : StockMovement). m.quantity) ms ≡ neg input.quantity)
        × ((k : Key) → held w k d' ≡ held w k d +ℤ movements_at (key_eq k) ms)
        × ((k : Key) → OtherStock input k → held w k d' ≡ held w k d)
        × Reconciles w d'
  unfolding Recorded
  record_outbound-Reconciles input d {ms} {d'} e before =
      let (allocations, posted, total, bounded, as_moved, outgoing, positive) =
        Done-eq ms d' (record_outbound-Recorded w laws ctx input d) e in
      let changed = Done-eq ms d' (record_outbound-Changed w laws ctx input d) e in
      (
        positive,
        changed.0,
        outgoing,
        total,
        (λ k. (posted (key_eq k)).1 ∙ ap (λ x. held w k d +ℤ x) (as_moved (key_eq k))),
        (λ k other.
            rw ((posted (key_eq k)).1, drawn-OtherStock input k allocations other) (+ℤ-zero _)),
        Posted-Reconciles w d d' _ posted before,
      )
