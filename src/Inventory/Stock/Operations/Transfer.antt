-- ===== src/Inventory/Stock/Operations/Transfer.antt =====
-- What `transfer` of src/modules/inventory/stock-operations.service.ts does to the stock.
use stock_mgt.Prelude.{
  ℕ, ◌≡◌, refl, ◌∙◌, ap, sym, ◌&&◌, Option, List, [], ◌∷◌, ◌==◌, opt_eq, inl, inr, Bool-cases,
}
use stock_mgt.Prelude.Int.{ℤ, pos, neg, abs, ◌+ℤ◌, ◌≤ℤ◌, int_laws, +ℤ_assoc}
use stock_mgt.Prelude.Lists.{sum_ℤ}
use stock_mgt.Prelude.Result.{ok}
use stock_mgt.Inventory.Stock.Tables.{Key, StockMovement, Context}
use stock_mgt.Inventory.Stock.Writer.{StockWriter, IsDatabase}
use stock_mgt.Inventory.Stock.Calls.{
  Done, Done-eq, Done->>=, Done-map, Done-self, transaction-Done, Checked, lift-Checked,
}
use stock_mgt.Inventory.Stock.Outbound.{out_key}
use stock_mgt.Inventory.Stock.Outbound.Effect.{Outgoing}
use stock_mgt.Inventory.Stock.Outbound.Reconcile.{Recorded, record_outbound-Recorded}
use stock_mgt.Inventory.Stock.Ledger.{
  Test, on_key, movements_at, held_where, Posted, Posted-same, Posted-Reconciles, Reconciles,
}
use stock_mgt.Inventory.Stock.Inbound.{Received, record_inbound-Received, in_key}
use stock_mgt.Inventory.Stock.OnHand.{
  Place, at_place, at, at-add, at-neg, place_eq, on_hand, movements_at-Outgoing,
}
use stock_mgt.Inventory.Stock.Operations.{
  Directory, CreateTransfer, TransferResult, base_quantity, arrive, arriving, leaving, move_between,
  transfer,
}
use stock_mgt.Inventory.Stock.Operations.Reads.{base_quantity-same}

abbrev pub source : CreateTransfer → Place
source input = record {
  product_id = input.product_id;
  variant_id = input.variant_id;
  location_id = input.from_location_id;
}

abbrev pub destination : CreateTransfer → Place
destination input = record {
  product_id = input.product_id;
  variant_id = input.variant_id;
  location_id = input.to_location_id;
}

-- One lot of a product or option, wherever it is.
abbrev pub of_lot : ℕ → Option ℕ → ℕ → Test
of_lot product_id variant_id batch_id key =
    (key.product_id == product_id) && opt_eq key.variant_id variant_id && (key.batch_id == batch_id)

interchange : (a b c e : ℤ) → a +ℤ b +ℤ (c +ℤ e) ≡ a +ℤ c +ℤ (b +ℤ e)
interchange a b c e = omega int_laws

opposite : (a b : ℤ) → b +ℤ a ≡ pos 0 → a ≡ neg b
opposite a b h = grind int_laws

neg_twice : (q : ℤ) → neg (neg q) ≡ q
neg_twice q = omega int_laws

module _ (ctx : Context) where
  -- What has left arrives: the sum of the arrivals on the keys of a test.
  pub arrived : CreateTransfer → List StockMovement → Test → ℤ
  arrived input ms t =
      sum_ℤ (λ (m : StockMovement). on_key t (in_key (arriving ctx input m)) (pos (abs m.quantity)))
        ms

  abbrev in_key_of : CreateTransfer → ℕ → Key
  in_key_of input batch_id = record {
    product_id = input.product_id;
    variant_id = input.variant_id;
    location_id = input.to_location_id;
    batch_id = batch_id;
  }

  balanced :
      (t : Test) (from to : Key) (m : ℤ)
      → t from ≡ t to
      → m ≡ neg (pos (abs m))
      → on_key t from m +ℤ on_key t to (pos (abs m)) ≡ pos 0
  balanced t from to m same h = elim (Bool-cases (t from)) [
    | inl e ↦ rw (← same, e) (grind int_laws)
    | inr e ↦ rw (← same, e) (omega int_laws)
  ]

  -- A test that does not look at the place sees as much arrive as has left.
  arrived-blind :
      (input : CreateTransfer) (q : ℤ) (ms : List StockMovement) (t : Test)
      → ((b : ℕ) → t (out_key (leaving ctx input q) b) ≡ t (in_key_of input b))
      → Outgoing (leaving ctx input q) ms
      → movements_at t ms +ℤ arrived input ms t ≡ pos 0
  unfolding arrived
  arrived-blind input q [] t blind h = omega int_laws
  arrived-blind input q (m ∷ ms) t blind (h, hs) =
      let left : on_key t m.key m.quantity
          ≡ on_key t (out_key (leaving ctx input q) m.key.batch_id) m.quantity =
        ap (λ (k : Key). on_key t k m.quantity) h.0 in
      let here =
        balanced t (out_key (leaving ctx input q) m.key.batch_id) (in_key_of input m.key.batch_id)
          m.quantity (blind m.key.batch_id) h.1 in
      let rest = arrived-blind input q ms t blind hs in
      rw left (interchange _ _ _ _ ∙ rw (here, rest) (omega int_laws))

  -- At a place, what arrives is what the movements out come to.
  arrived-place :
      (input : CreateTransfer) (q : ℤ) (p : Place) (ms : List StockMovement)
      → Outgoing (leaving ctx input q) ms
      → at p (destination input) (sum_ℤ (λ (m : StockMovement). m.quantity) ms)
          +ℤ arrived input ms (at_place p)
        ≡ pos 0
  unfolding arrived
  arrived-place input q p [] h = elim (Bool-cases (place_eq p (destination input))) [
    | inl e ↦ rw e (omega int_laws)
    | inr e ↦ rw e (omega int_laws)
  ]
  arrived-place input q p (m ∷ ms) (h, hs) =
      let key = in_key_of input m.key.batch_id in
      let here = balanced (at_place p) key key m.quantity refl h.1 in
      let rest = arrived-place input q p ms hs in
      rw (at-add p (destination input)) (interchange _ _ _ _ ∙ rw (here, rest) (omega int_laws))

  pub carried-places :
      (input : CreateTransfer) (q : ℤ) (p : Place) (ms : List StockMovement)
      → Outgoing (leaving ctx input q) ms
      → sum_ℤ (λ (m : StockMovement). m.quantity) ms ≡ neg q
      → movements_at (at_place p) ms +ℤ arrived input ms (at_place p)
        ≡ at p (source input) (neg q) +ℤ at p (destination input) q
  carried-places input q p ms h total =
      let sum_out = λ (x : ℤ). at p (destination input) x +ℤ arrived input ms (at_place p) in
      let zero_sum : sum_out (neg q) ≡ pos 0 =
        ap sum_out (sym total) ∙ arrived-place input q p ms h in
      let out =
        movements_at-Outgoing (leaving ctx input q) p ms h ∙ ap (at p (source input)) total in
      let into : arrived input ms (at_place p) ≡ at p (destination input) q =
        opposite _ _ zero_sum
        ∙ sym (at-neg p (destination input) (neg q))
        ∙ ap (at p (destination input)) (neg_twice q) in
      rw (out, into)

module _ {Db : Type 0} (w : StockWriter Db) (laws : IsDatabase w) (directory : Directory Db)
    (ctx : Context) where
  arrive-Posted :
      (input : CreateTransfer) (ms : List StockMovement) (d : Db)
      → Done (λ _ d'. Posted w d d' (arrived ctx input ms)) (arrive w directory ctx input ms d)
  unfolding arrive Received arrived
  arrive-Posted input [] d = Done.returned _ _ λ t. (omega int_laws, omega int_laws)
  arrive-Posted input (m ∷ ms) d =
      Done->>= _ _ _ _ (record_inbound-Received w laws ctx (arriving ctx input m) d) λ _ d1 h1.
        Done->>= _ _ _ _ (arrive-Posted input ms d1) λ _ d2 h2. Done.returned _ _ λ t.
          (rw ((h2 t).0, (h1.0 t).0) (+ℤ_assoc _ _ _), rw ((h2 t).1, (h1.0 t).1) (+ℤ_assoc _ _ _))

  -- The two halves of a transfer of `q` base units.
  abbrev pub Carried : CreateTransfer → ℤ → Db → TransferResult → Db → Type 0
  Carried input q d r d' =
      Posted w d d' (λ t. movements_at t r.out +ℤ arrived ctx input r.out t)
      × Outgoing (leaving ctx input q) r.out
      × (sum_ℤ (λ (m : StockMovement). m.quantity) r.out ≡ neg q)
      × (pos 1 ≤ℤ q)

  move_between-Carried :
      (input : CreateTransfer) (q : ℤ) (d : Db)
      → Done (Carried input q d) (move_between w directory ctx input q d)
  unfolding move_between Recorded
  move_between-Carried input q d =
      Done->>= _ _ _ _ (record_outbound-Recorded w laws ctx (leaving ctx input q) d) λ out d1 h1.
        Done->>= _ _ _ _ (arrive-Posted input out d1) λ into d2 h2.
          let (allocations, posted, total, bounded, as_moved, outgoing, positive) = h1 in
          Done.returned _ _ (
            (λ t. (
              rw ((h2 t).0, (posted t).0, as_moved t) (+ℤ_assoc _ _ _),
              rw ((h2 t).1, (posted t).1, as_moved t) (+ℤ_assoc _ _ _),
            )),
            outgoing,
            total,
            positive,
          )

  -- What a transfer that returns has moved: the quantity asked for, in base units.
  unfoldable pub Transferred : CreateTransfer → Db → TransferResult → Db → Type 0
  Transferred input d r d' =
      (q : ℤ) × (base_quantity w directory ctx input.product_id input.variant_id input.unit_id
          input.quantity d
        ≡ (ok q, d))
      × Carried input q d r d'

  pub transfer-Transferred :
      (input : CreateTransfer) (d : Db)
      → Done (Transferred input d) (transfer w directory ctx input d)
  unfolding transfer Transferred
  transfer-Transferred input d = Done->>= (Checked _ d) _ _ _ (lift-Checked _ d) λ _ d1 h1.
      Done->>= (Checked _ d1) _ _ _ (lift-Checked _ d1) λ _ d2 h2.
        Done->>= (Checked _ d2) _ _ _ (lift-Checked _ d2) λ _ d3 h3.
          Done->>= _ _ _ _
            (Done-self d3 _ (
              base_quantity-same w directory ctx input.product_id input.variant_id input.unit_id
                input.quantity d3))
            λ q d4 h4.
              let back = h3.0 ∙ h2.0 ∙ h1.0 in
              let back4 = h4.0 ∙ back in
              Done-map _
                (λ r d' h. (
                  q,
                  rw (← back) h4.1,
                  (
                    Posted-same w d d4 d' _ (ap w.movements back4) (ap w.balances back4) h.0,
                    h.1,
                    h.2,
                    h.3,
                  ),
                ))
                (transaction-Done _ d4 (move_between-Carried input q d4))

  -- A transfer that returns has moved its quantity, in base units, from the one place to the other
  -- and changed no other place; of no lot has the business more or less than before; and the ledger
  -- reconciles as before.
  pub transfer-conserves :
      (input : CreateTransfer) (d : Db) {r : TransferResult} {d' : Db}
      → transfer w directory ctx input d ≡ (ok r, d')
      → Reconciles w d
      → (q : ℤ) × (base_quantity w directory ctx input.product_id input.variant_id input.unit_id
            input.quantity d
          ≡ (ok q, d))
        × (pos 1 ≤ℤ q)
        × ((p : Place)
            → on_hand w p d'
              ≡ on_hand w p d +ℤ (at p (source input) (neg q) +ℤ at p (destination input) q))
        × ((product_id : ℕ) (variant_id : Option ℕ) (batch_id : ℕ)
            → held_where w (of_lot product_id variant_id batch_id) d'
              ≡ held_where w (of_lot product_id variant_id batch_id) d)
        × Reconciles w d'
  unfolding Transferred
  transfer-conserves input d {r} {d'} e before =
      let (q, reads, (posted, outgoing, total, positive)) =
        Done-eq r d' (transfer-Transferred input d) e in
      (
        q,
        reads,
        positive,
        (λ p.
            (posted (at_place p)).1
            ∙ ap (λ x. on_hand w p d +ℤ x) (carried-places ctx input q p r.out outgoing total)),
        (λ product_id variant_id batch_id.
            (posted (of_lot product_id variant_id batch_id)).1
            ∙ ap (λ x. held_where w (of_lot product_id variant_id batch_id) d +ℤ x)
                (arrived-blind ctx input q r.out (of_lot product_id variant_id batch_id) (λ b. refl)
                  outgoing)
            ∙ omega int_laws),
        Posted-Reconciles w d d' _ posted before,
      )
