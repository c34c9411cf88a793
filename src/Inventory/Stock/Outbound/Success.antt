-- ===== src/Inventory/Stock/Outbound/Success.antt =====
-- When `recordOutbound` returns: nothing that it does after its checks can fail, but a clash of ids.
use stock_mgt.Prelude.{
  ℕ, ◌≤◌, ◌≡◌, refl, ◌∙◌, ap, Bool, true, false, not, some, none, List, [], ◌∷◌, arith, ltb, inl,
  inr, Bool-cases, Option-cases,
}
use stock_mgt.Prelude.Int.{ℤ, pos, pos_part, ◌≤ℤ◌}
use stock_mgt.Prelude.Result.{Result, ok}
use stock_mgt.Inventory.Fefo.{Allocation, AllocationResult}
use stock_mgt.Inventory.Fefo.Cover.{available}
use stock_mgt.Inventory.Stock.Tables.{Key, StockMovement, OutboundInput, Context}
use stock_mgt.Inventory.Stock.Writer.{StockWriter, IsDatabase}
use stock_mgt.Inventory.Stock.Calls.{insert_or_throw, >>=-eq_of_ok}
use stock_mgt.Inventory.Stock.Service.{
  apply_to_balance, require_organization_id, assert_variant, is_new_stock_or_sale,
}
use stock_mgt.Inventory.Stock.Service.Guards.{assert_positive-of_pos}
use stock_mgt.Inventory.Stock.Outbound.{
  available_batches, cover_shortfall, write_out, outbound_movement, record_outbound,
}
use stock_mgt.Inventory.Stock.Outbound.Policy.{plan_of}

module _ {Db : Type 0} (w : StockWriter Db) (laws : IsDatabase w) (ctx : Context) {org : ℕ}
    (signed_in : ctx.organization_id ≡ some org) where
  apply_to_balance-succeeds :
      (key : Key) (delta : ℤ) (d : Db)
      → (d' : Db) × (apply_to_balance w ctx key delta d ≡ (ok tt, d'))
  unfolding apply_to_balance
  apply_to_balance-succeeds key delta d =
      let updated = (w.update_balances key delta d).1 in
      elim (Bool-cases (ltb 0 (w.update_balances key delta d).0)) [
        | inl e ↦ (updated, rw e)
        | inr e ↦
            elim (Option-cases (
              w.create_balances (record { organization_id = org; key = key; quantity = delta } ∷ [])
                updated)) [
                  | inl c ↦ ((w.update_balances key delta updated).1, rw (e, signed_in, c))
                  | inr (created, c) ↦ (created, rw (e, signed_in, c))
                ]
      ]

  write_out-succeeds :
      (input : OutboundInput) (first forced : Bool) (allocations : List Allocation) (d : Db)
      → input.id ≡ none
      → (ms : List StockMovement) × (d' : Db) × (write_out w ctx input org first forced allocations
            d
          ≡ (ok ms, d'))
  unfolding write_out
  write_out-succeeds input first forced [] d fresh = ([], d, refl)
  write_out-succeeds input first forced (a ∷ rest) d fresh =
      let m = outbound_movement w ctx input org first forced a in
      elim (Option-cases (w.create_movements (m ∷ []) d)) [
        | inl c ↦ absurd (laws.minted m d (ground arith) c)
        | inr (d1, c) ↦
            let (d2, e2) = apply_to_balance-succeeds m.key m.quantity d1 in
            let (ms, d3, e3) = write_out-succeeds input false forced rest d2 fresh in
            (
              m ∷ ms,
              d3,
              >>=-eq_of_ok _ _ d (rw (c, insert_or_throw))
                  ∙ (>>=-eq_of_ok _ _ d1 e2 ∙ >>=-eq_of_ok _ _ d2 e3),
            )
      ]

  cover_shortfall-covered :
      (input : OutboundInput) (plan : AllocationResult) (d : Db)
      → plan.shortfall ≡ 0
      → cover_shortfall w ctx input plan d ≡ (ok plan.allocations, d)
  unfolding cover_shortfall
  cover_shortfall-covered input plan d e = rw e

  -- In a signed-in organization a movement of a positive quantity that stock covers, for an option
  -- that may be moved and with an id that the database mints, returns.
  pub record_outbound-succeeds :
      (input : OutboundInput) (d : Db)
      → input.id ≡ none
      → pos 1 ≤ℤ input.quantity
      → assert_variant w ctx input.product_id input.variant_id
          (not (is_new_stock_or_sale input.type))
          d
        ≡ (ok tt, d)
      → pos_part input.quantity ≤ available (available_batches w ctx input d)
      → (ms : List StockMovement) × (d' : Db) × (record_outbound w ctx input d ≡ (ok ms, d'))
  unfolding record_outbound
  record_outbound-succeeds input d fresh h v enough =
      let (plan, runs, rest) = plan_of (available_batches w ctx input d) input.quantity h in
      let (ms, d', wrote) =
        write_out-succeeds input true (ltb 0 plan.shortfall) plan.allocations d fresh in
      (
        ms,
        d',
        >>=-eq_of_ok _ _ d (ap (λ (r : Result (Unit {0})). (r, d)) (assert_positive-of_pos _ h))
            ∙ (>>=-eq_of_ok _ _ d v
                ∙ (>>=-eq_of_ok _ _ d refl
                    ∙ (>>=-eq_of_ok _ _ d (ap (λ (r : Result AllocationResult). (r, d)) runs)
                        ∙ (>>=-eq_of_ok _ _ d (cover_shortfall-covered input plan d (omega arith))
                            ∙ (>>=-eq_of_ok _ _ d (
                                  ap (λ (r : Result ℕ). (r, d))
                                    (rw (signed_in, require_organization_id)))
                                ∙ wrote))))),
      )
