-- ===== src/Inventory/Stock/Refine/Steps.antt =====
-- What every request on the ledger does to the shop.
use stock_mgt.Prelude.{
  ℕ, suc, ◌≡◌, refl, ◌∙◌, ap, Bool, true, false, ◌⊎◌, inl, inr, List, [], ◌∷◌, map,
}
use stock_mgt.Prelude.Int.{ℤ, pos, ◌+ℤ◌, ◌≤ℤ◌}
use stock_mgt.Prelude.Lists.{All}
use stock_mgt.Prelude.Result.{Result, ok, err}
use stock_mgt.Inventory.Stock.Tables.{NewLotLine, Context}
use stock_mgt.Inventory.Stock.Writer.{StockWriter, IsDatabase}
use stock_mgt.Inventory.Stock.Calls.{
  Action, transaction, Done, Done->>=, Done-both, Done-anyway, Checked, lift-Checked,
}
use stock_mgt.Inventory.Stock.Service.{assert_positive, record_inbound}
use stock_mgt.Inventory.Stock.Outbound.{record_outbound}
use stock_mgt.Inventory.Stock.Options.{move_into_variant}
use stock_mgt.Inventory.Stock.Service.Guards.{assert_positive-ok}
use stock_mgt.Inventory.Stock.Lots.{assert_all_positive, record_new_lots, with_ids, brought}
use stock_mgt.Inventory.Stock.Lots.Effect.{record_new_lots-Stocked}
use stock_mgt.Inventory.Stock.Ledger.{held_where}
use stock_mgt.Inventory.Stock.Options.Effect.{move_into_variant-shifted}
use stock_mgt.Inventory.Stock.Operations.{Directory, adjust, transfer, location_of, base_quantity}
use stock_mgt.Inventory.Stock.Operations.Adjust.{Adjusted, adjust-Adjusted, adjusted_place}
use stock_mgt.Inventory.Stock.Operations.Transfer.{
  Transferred, transfer-Transferred, carried-places, source, destination,
}
use stock_mgt.Inventory.Stock.OnHand.{
  Place, place, at_place, on_hand, record_inbound-Changed, record_outbound-Changed,
}
use stock_mgt.Inventory.Stock.Refine.{Shop, Order, carried_out, IsPositive, arrivals_at}
use stock_mgt.Inventory.Stock.Refine.Gather.{shifted-gathered}
use stock_mgt.Inventory.Stock.Reach.{Step}

abbrev arrival : NewLotLine → Place × ℤ
arrival line = (
  record {
    product_id = line.product_id;
    variant_id = line.variant_id;
    location_id = line.location_id;
  },
  line.quantity,
)

brought-arrivals :
    (random_uuid : ℕ → ℕ) (i : ℕ) (lines : List NewLotLine) (p : Place)
    → brought (with_ids random_uuid i lines) (at_place p) ≡ arrivals_at p (map arrival lines)
unfolding brought
brought-arrivals random_uuid i [] p = refl
brought-arrivals random_uuid i (line ∷ lines) p = rw (brought-arrivals random_uuid (suc i) lines p)

both_pass :
    (check rest : Result (Unit {0}))
    → (elim check as (λ _. Result (Unit {0})) [ ok _ ↦ rest | err e ↦ err e ]) ≡ ok tt
    → (check ≡ ok tt) × (rest ≡ ok tt)
both_pass (ok u) rest h = (refl, h)
both_pass (err e) rest h = cc

All-positive :
    (lines : List NewLotLine)
    → assert_all_positive lines ≡ ok tt
    → All (λ (a : Place × ℤ). pos 1 ≤ℤ a.1) (map arrival lines)
unfolding assert_all_positive
All-positive [] h = tt
All-positive (line ∷ lines) h =
    let passes = both_pass (assert_positive line.quantity) (assert_all_positive lines) h in
    (assert_positive-ok line.quantity passes.0, All-positive lines passes.1)

-- What the shop floor sees of the tables.
module _ {Db : Type 0} (w : StockWriter Db) where
  abbrev pub view : Db → Shop
  view d p = on_hand w p d

  -- What becomes of the shop: a request that returns carries out an order that it asks for, and one
  -- that throws changes nothing.
  abbrev pub Obeyed : Db → Db → (returned : Bool) → (Order → Type 0) → Type 0
  Obeyed d d' returned Asks =
      ((returned ≡ true)
        × (o : Order) × Asks o
        × IsPositive o
        × ((p : Place) → view d' p ≡ carried_out o (view d) p))
      ⊎ ((returned ≡ false) × ((p : Place) → view d' p ≡ view d p))

abbrev pub is_ok : {A : Type 0} → Result A → Bool
is_ok (ok a) = true
is_ok (err e) = false

module _ {Db : Type 0} (w : StockWriter Db) (directory : Directory Db) where
  abbrev pub has_returned : {d d' : Db} → Step w directory d d' → Bool
  has_returned (Step.inbound ctx input d) = is_ok (transaction (record_inbound w ctx input) d).0
  has_returned (Step.outbound ctx input d) = is_ok (transaction (record_outbound w ctx input) d).0
  has_returned (Step.new_lots ctx lines d) = is_ok (transaction (record_new_lots w ctx lines) d).0
  has_returned (Step.into_option ctx product_id variant_id name d) =
      is_ok (transaction (move_into_variant w ctx product_id variant_id name) d).0
  has_returned (Step.adjusting ctx input d) = is_ok (transaction (adjust w directory ctx input) d).0
  has_returned (Step.transferring ctx input d) =
      is_ok (transaction (transfer w directory ctx input) d).0

  -- The order that a request asks for: its own product, option, place and quantity, the place and the
  -- base units of an adjustment or a transfer as the directory says.
  abbrev pub Asked : {d d' : Db} → Step w directory d d' → Order → Type 0
  Asked (Step.inbound ctx input d) o = o ≡ Order.put (place input.movement) input.quantity
  Asked (Step.outbound ctx input d) o = o ≡ Order.take (place input.movement) input.quantity
  Asked (Step.new_lots ctx lines d) o = o ≡ Order.deliver (map arrival lines)
  Asked (Step.into_option ctx product_id variant_id name d) o =
      o ≡ Order.put_into_option product_id variant_id
  Asked (Step.adjusting ctx input d) o =
      (location_id : ℕ) × (q : ℤ) × (location_of w directory ctx input.location_id d
        ≡ (ok location_id, d))
      × (base_quantity w directory ctx input.product_id input.variant_id input.unit_id
            input.quantity d
          ≡ (ok q, d))
      × (o ≡ Order.adjust_by (adjusted_place input location_id) q)
  Asked (Step.transferring ctx input d) o =
      (q : ℤ) × (base_quantity w directory ctx input.product_id input.variant_id input.unit_id
          input.quantity d
        ≡ (ok q, d))
      × (o ≡ Order.carry (source input) (destination input) q)

module _ {Db : Type 0} (w : StockWriter Db) (laws : IsDatabase w) (directory : Directory Db) where
  record_new_lots-positive :
      (ctx : Context) (lines : List NewLotLine) (d : Db)
      → Done (λ _ _. assert_all_positive lines ≡ ok tt) (record_new_lots w ctx lines d)
  unfolding record_new_lots assert_all_positive
  record_new_lots-positive ctx [] d = Done.returned _ _ refl
  record_new_lots-positive ctx (line ∷ lines) d =
      Done->>= (Checked _ d) {Q = λ _ _. assert_all_positive (line ∷ lines) ≡ ok tt} _ _ _
        (lift-Checked _ d) λ _ d1 h1. Done-anyway h1.1 _

  -- A transaction that returns has the effect of its call; one that throws leaves the tables alone.
  transaction-outcome :
      {A : Type 0} (P : A → Db → Type 0) (Effect : Db → Type 0) (m : Action Db A) (d : Db)
      → Done P (m d)
      → ((a : A) (d' : Db) → P a d' → Effect d')
      → ((is_ok (transaction m d).0 ≡ true) × Effect (transaction m d).1)
        ⊎ ((is_ok (transaction m d).0 ≡ false) × ((transaction m d).1 ≡ d))
  unfolding transaction
  transaction-outcome {A} P Effect m d done f = go (m d) done
    where
      go :
          (x : Result A × Db)
          → Done P x
          → let y : Result A × Db = elim x.0 [ ok a ↦ (ok a, x.1) | err e ↦ (err e, d) ] in
            ((is_ok y.0 ≡ true) × Effect y.1) ⊎ ((is_ok y.0 ≡ false) × (y.1 ≡ d))
      go x (Done.returned a d' p) = inl (refl, f a d' p)
      go x (Done.threw e d') = inr (refl, refl)

  -- An order that asks for what the request says, and has been carried out.
  obeyed :
      {d : Db} {A : Type 0} (P : A → Db → Type 0) (Asked : Order → Type 0) (m : Action Db A)
      → Done P (m d)
      → ((a : A) (d' : Db)
          → P a d'
          → (o : Order) × Asked o
            × IsPositive o
            × ((p : Place) → view w d' p ≡ carried_out o (view w d) p))
      → Obeyed w d (transaction m d).1 (is_ok (transaction m d).0) Asked
  obeyed {d} P Asked m done f =
      elim (transaction-outcome P
        (λ d'.
          (o : Order) × Asked o
          × IsPositive o
          × ((p : Place) → view w d' p ≡ carried_out o (view w d) p))
        m d done f) [
          | inl (back, (o, asked, positive, effect)) ↦ inl (back, o, asked, positive, effect)
          | inr (thrown, same) ↦ inr (thrown, λ p. ap (λ d'. view w d' p) same)
        ]

  -- A request on the ledger that returns has carried out in the shop just the order that it asks for: its
  -- own product, option and place or places, and its quantity in base units, which is one or more but
  -- for an adjustment. A request that throws has changed nothing in the shop.
  pub Step-refines :
      {d d' : Db} (s : Step w directory d d')
      → Obeyed w d d' (has_returned w directory s) (Asked w directory s)
  unfolding Adjusted Transferred held_where
  Step-refines (Step.inbound ctx input d) =
      obeyed _ _ _ (record_inbound-Changed w laws ctx input d)
        λ _ d' h. (Order.put (place input.movement) input.quantity, refl, h.1, h.0)
  Step-refines (Step.outbound ctx input d) =
      obeyed _ _ _ (record_outbound-Changed w laws ctx input d)
        λ _ d' h. (Order.take (place input.movement) input.quantity, refl, h.3, h.0)
  Step-refines (Step.new_lots ctx lines d) =
      obeyed _ _ _
        (Done-both _ (record_new_lots-Stocked w laws ctx lines d)
          (record_new_lots-positive ctx lines d))
        λ _ d' h. (
          Order.deliver (map arrival lines),
          refl,
          All-positive lines h.1,
          λ p.
              (h.0 (at_place p)).1
              ∙ ap (λ x. on_hand w p d +ℤ x) (brought-arrivals ctx.random_uuid 0 lines p),
        )
  Step-refines (Step.into_option ctx product_id variant_id name d) =
      obeyed _ _ _ (move_into_variant-shifted w laws ctx product_id variant_id name d) λ _ d' h. (
        Order.put_into_option product_id variant_id,
        refl,
        tt,
        λ p. (h (at_place p)).1 ∙ shifted-gathered product_id variant_id p (w.balances d),
      )
  Step-refines (Step.adjusting ctx input d) =
      obeyed _ _ _ (adjust-Adjusted w laws directory ctx input d) λ _ d' h.
        let (location_id, q, at_location, reads, (change, posted, here)) = h in
        (
          Order.adjust_by (adjusted_place input location_id) q,
          (location_id, q, at_location, reads, refl),
          tt,
          λ p. (posted (at_place p)).1 ∙ ap (λ x. on_hand w p d +ℤ x) (here p),
        )
  Step-refines (Step.transferring ctx input d) =
      obeyed _ _ _ (transfer-Transferred w laws directory ctx input d) λ r d' h.
        let (q, reads, (posted, outgoing, total, positive)) = h in
        (
          Order.carry (source input) (destination input) q,
          (q, reads, refl),
          positive,
          λ p.
              (posted (at_place p)).1
              ∙ ap (λ x. on_hand w p d +ℤ x) (carried-places ctx input q p r.out outgoing total),
        )
