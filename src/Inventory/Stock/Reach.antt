-- ===== src/Inventory/Stock/Reach.antt =====
-- The ledger over time: any sequence of the operations of `StockService` and
-- `StockOperationsService` (src/modules/inventory/stock.service.ts and stock-operations.service.ts), each in its transaction, whether it returns or throws.
use stock_mgt.Prelude.{ℕ, ◌≡◌, List, []}
use stock_mgt.Prelude.Result.{Result, ok, err}
use stock_mgt.Inventory.Stock.Tables.{Text, InboundInput, OutboundInput, NewLotLine, Context}
use stock_mgt.Inventory.Stock.Writer.{StockWriter, IsDatabase}
use stock_mgt.Inventory.Stock.Calls.{Action, Done, transaction}
use stock_mgt.Inventory.Stock.Service.{record_inbound}
use stock_mgt.Inventory.Stock.Outbound.{record_outbound}
use stock_mgt.Inventory.Stock.Lots.{record_new_lots}
use stock_mgt.Inventory.Stock.Options.{move_into_variant}
use stock_mgt.Inventory.Stock.Ledger.{moved_where, held_where, Posted-Reconciles, Reconciles}
use stock_mgt.Inventory.Stock.Inbound.{Received, record_inbound-Received}
use stock_mgt.Inventory.Stock.Outbound.Reconcile.{Recorded, record_outbound-Recorded}
use stock_mgt.Inventory.Stock.Operations.{
  Directory, CreateAdjustment, CreateTransfer, adjust, transfer,
}
use stock_mgt.Inventory.Stock.Operations.Adjust.{Adjusted, adjust-Adjusted}
use stock_mgt.Inventory.Stock.Operations.Transfer.{Transferred, transfer-Transferred}
use stock_mgt.Inventory.Stock.Lots.Effect.{record_new_lots-Stocked}
use stock_mgt.Inventory.Stock.Options.Effect.{move_into_variant-shifted}

module _ {Db : Type 0} (w : StockWriter Db) (directory : Directory Db) where
  -- One request, by anybody, for any input.
  pub data Step : Db → Db → Type 0 where
    inbound :
        (ctx : Context) (input : InboundInput) (d : Db)
        → Step d (transaction (record_inbound w ctx input) d).1
    outbound :
        (ctx : Context) (input : OutboundInput) (d : Db)
        → Step d (transaction (record_outbound w ctx input) d).1
    new_lots :
        (ctx : Context) (lines : List NewLotLine) (d : Db)
        → Step d (transaction (record_new_lots w ctx lines) d).1
    into_option :
        (ctx : Context) (product_id variant_id : ℕ) (name : Text) (d : Db)
        → Step d (transaction (move_into_variant w ctx product_id variant_id name) d).1
    adjusting :
        (ctx : Context) (input : CreateAdjustment) (d : Db)
        → Step d (transaction (adjust w directory ctx input) d).1
    transferring :
        (ctx : Context) (input : CreateTransfer) (d : Db)
        → Step d (transaction (transfer w directory ctx input) d).1

  pub data Reach (start : Db) : Db → Type 0 where
    here : Reach start start
    next : {d d' : Db} → Reach start d → Step d d' → Reach start d'

module _ {Db : Type 0} (w : StockWriter Db) (laws : IsDatabase w) (directory : Directory Db) where
  -- A transaction keeps what the call keeps when it returns.
  pub transaction-keeps :
      {A : Type 0} (P : A → Db → Type 0) (R : Db → Type 0) (m : Action Db A) (d : Db)
      → Done P (m d)
      → ((a : A) (d' : Db) → P a d' → R d')
      → R d
      → R (transaction m d).1
  unfolding transaction
  transaction-keeps {A} P R m d done keep h = go (m d) done
    where
      go :
          (x : Result A × Db)
          → Done P x
          → R (let y : Result A × Db = elim x.0 [ ok a ↦ (ok a, x.1) | err e ↦ (err e, d) ] in y.1)
      go x (Done.returned a d' p) = keep a d' p
      go x (Done.threw e d') = h

  Step-Reconciles : {d d' : Db} → Step w directory d d' → Reconciles w d → Reconciles w d'
  unfolding Received Recorded Adjusted Transferred
  Step-Reconciles (Step.inbound ctx input d) h =
      transaction-keeps _ (Reconciles w) _ d (record_inbound-Received w laws ctx input d)
        (λ _ d' p. Posted-Reconciles w d d' _ p.0 h) h
  Step-Reconciles (Step.outbound ctx input d) h =
      transaction-keeps _ (Reconciles w) _ d (record_outbound-Recorded w laws ctx input d)
        (λ _ d' p. Posted-Reconciles w d d' _ p.1 h) h
  Step-Reconciles (Step.new_lots ctx lines d) h =
      transaction-keeps _ (Reconciles w) _ d (record_new_lots-Stocked w laws ctx lines d)
        (λ _ d' p. Posted-Reconciles w d d' _ p h) h
  Step-Reconciles (Step.into_option ctx product_id variant_id name d) h =
      transaction-keeps _ (Reconciles w) _ d
        (move_into_variant-shifted w laws ctx product_id variant_id name d)
        (λ _ d' p. Posted-Reconciles w d d' _ p h) h
  Step-Reconciles (Step.adjusting ctx input d) h =
      transaction-keeps _ (Reconciles w) _ d (adjust-Adjusted w laws directory ctx input d)
        (λ _ d' p. Posted-Reconciles w d d' _ p.4.1 h) h
  Step-Reconciles (Step.transferring ctx input d) h =
      transaction-keeps _ (Reconciles w) _ d (transfer-Transferred w laws directory ctx input d)
        (λ _ d' p. Posted-Reconciles w d d' _ p.2.0 h) h

  Reach-keeps : {start d : Db} → Reach w directory start d → Reconciles w start → Reconciles w d
  Reach-keeps Reach.here h = h
  Reach-keeps (Reach.next r s) h = Step-Reconciles s (Reach-keeps r h)

  -- From an empty ledger, after any sequence of requests, every balance is the sum of its movements.
  pub Reach-Reconciles :
      {start d : Db}
      → w.movements start ≡ []
      → w.balances start ≡ []
      → Reach w directory start d
      → Reconciles w d
  unfolding moved_where held_where
  Reach-Reconciles no_movements no_balances r = Reach-keeps r (λ k. rw (no_movements, no_balances))
