-- ===== src/Inventory/Stock/Outbound/Policy.antt =====
-- The policy of `recordOutbound` on stock that is not there: who may force a movement, and what is
-- left of a call that is refused.
use stock_mgt.Prelude.{ℕ, ◌-◌, ◌<◌, ◌≡◌, ap, refl, ◌∙◌, true, false, not, List, arith, ltb}
use stock_mgt.Prelude.Int.{ℤ, pos, negsuc, pos_part, ◌≤ℤ◌}
use stock_mgt.Prelude.Result.{Result, ok, err, Error}
use stock_mgt.Inventory.Fefo.{AllocatableBatch, AllocationResult, allocate_fefo}
use stock_mgt.Inventory.Fefo.Cover.{available, allocate_fefo-covers}
use stock_mgt.Inventory.Stock.Tables.{OutboundInput, Context}
use stock_mgt.Inventory.Stock.Writer.{StockWriter}
use stock_mgt.Inventory.Stock.Calls.{lift, >>=-eq_of_ok, >>=-eq_of_err}
use stock_mgt.Inventory.Stock.Service.{
  assert_positive, assert_variant, assert_may_force, is_force_role, is_blank, is_new_stock_or_sale,
}
use stock_mgt.Inventory.Stock.Service.Guards.{assert_positive-of_pos}
use stock_mgt.Inventory.Stock.Outbound.{available_batches, cover_shortfall, record_outbound}

-- A plan for a positive quantity, with its shortfall.
pub plan_of :
    (bs : List AllocatableBatch) (q : ℤ)
    → pos 1 ≤ℤ q
    → (plan : AllocationResult) × (allocate_fefo bs q ≡ ok plan)
      × (plan.shortfall ≡ pos_part q - available bs)
plan_of bs (pos n) h =
    let (r, runs, total, short, _, _) = allocate_fefo-covers bs n (omega arith) in (r, runs, short)
plan_of bs (negsuc n) h = absurd (omega arith)

lt→ltb : {n : ℕ} → 0 < n → ltb 0 n ≡ true
lt→ltb h = ground arith

module _ {Db : Type 0} (w : StockWriter Db) (ctx : Context) where
  passes :
      (input : OutboundInput) {d : Db}
      → pos 1 ≤ℤ input.quantity
      → lift (assert_positive input.quantity) d ≡ (ok tt, d)
  passes input {d} h = ap (λ (r : Result (Unit {0})). (r, d)) (assert_positive-of_pos _ h)

  -- A call whose checks pass goes on to cover the shortfall of its plan.
  reaches_cover :
      (input : OutboundInput) (d : Db) {plan : AllocationResult} {x : Error}
      → pos 1 ≤ℤ input.quantity
      → assert_variant w ctx input.product_id input.variant_id
          (not (is_new_stock_or_sale input.type))
          d
        ≡ (ok tt, d)
      → allocate_fefo (available_batches w ctx input d) input.quantity ≡ ok plan
      → cover_shortfall w ctx input plan d ≡ (err x, d)
      → record_outbound w ctx input d ≡ (err x, d)
  unfolding record_outbound
  reaches_cover input d h v p c =
      >>=-eq_of_ok _ _ d (passes input h)
      ∙ (>>=-eq_of_ok _ _ d v
          ∙ (>>=-eq_of_ok _ _ d refl
              ∙ (>>=-eq_of_ok _ _ d (ap (λ (r : Result AllocationResult). (r, d)) p)
                  ∙ >>=-eq_of_err _ _ d c)))

  -- Why a movement past a shortfall is refused: it is not forced, whoever forces it may not, or gives
  -- no reason.
  pub data Refusal (input : OutboundInput) : Error → Type 0 where
    not_forced : input.force ≡ false → Refusal input Error.conflict
    no_role :
        input.force ≡ true → is_force_role ctx.org_role ≡ false → Refusal input Error.forbidden
    no_reason :
        input.force ≡ true
        → is_force_role ctx.org_role ≡ true
        → is_blank input.forced_reason ≡ true
        → Refusal input Error.conflict

  cover_shortfall-refused :
      (input : OutboundInput) (plan : AllocationResult) (d : Db) {x : Error}
      → 0 < plan.shortfall
      → Refusal input x
      → cover_shortfall w ctx input plan d ≡ (err x, d)
  unfolding cover_shortfall assert_may_force
  cover_shortfall-refused input plan d short (Refusal.not_forced f) =
      rw (lt→ltb short) (>>=-eq_of_err _ _ d (rw f))
  cover_shortfall-refused input plan d short (Refusal.no_role f r) =
      rw (lt→ltb short) (>>=-eq_of_ok _ _ d (rw f) ∙ >>=-eq_of_err _ _ d (rw r))
  cover_shortfall-refused input plan d short (Refusal.no_reason f r e) =
      rw (lt→ltb short) (>>=-eq_of_ok _ _ d (rw f) ∙ >>=-eq_of_err _ _ d (rw (r, e)))

  -- A movement that stock does not cover is refused for each of the three reasons with its own
  -- exception, and nothing has been written.
  pub record_outbound-refused :
      (input : OutboundInput) (d : Db) {x : Error}
      → pos 1 ≤ℤ input.quantity
      → assert_variant w ctx input.product_id input.variant_id
          (not (is_new_stock_or_sale input.type))
          d
        ≡ (ok tt, d)
      → available (available_batches w ctx input d) < pos_part input.quantity
      → Refusal input x
      → record_outbound w ctx input d ≡ (err x, d)
  record_outbound-refused input d h v short r =
      let (plan, runs, rest) = plan_of (available_batches w ctx input d) input.quantity h in
      reaches_cover input d h v runs (cover_shortfall-refused input plan d (omega arith) r)
