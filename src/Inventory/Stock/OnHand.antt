-- ===== src/Inventory/Stock/OnHand.antt =====
-- What is on hand of a product or option at a place: the sum of its balances, whatever lots they are
-- of. What each operation of src/modules/inventory/stock.service.ts does to it.
use stock_mgt.Prelude.{
  ℕ, ◌≡◌, ◌∙◌, ap, Bool, true, ◌&&◌, Option, List, [], ◌∷◌, arith, ◌==◌, opt_eq, if◌then◌else◌, inl,
  inr, Bool-cases, opt_eq→eq, opt_eq_refl,
}
use stock_mgt.Prelude.Int.{ℤ, pos, neg, ◌+ℤ◌, ◌≤ℤ◌, int_laws, +ℤ_assoc}
use stock_mgt.Prelude.Lists.{sum_ℤ}
use stock_mgt.Inventory.Stock.Tables.{
  Key, StockMovement, MovementInput, InboundInput, OutboundInput, Context,
}
use stock_mgt.Inventory.Stock.Writer.{StockWriter, IsDatabase}
use stock_mgt.Inventory.Stock.Calls.{Done, Done-map}
use stock_mgt.Inventory.Stock.Service.{record_inbound}
use stock_mgt.Inventory.Stock.Outbound.{record_outbound}
use stock_mgt.Inventory.Stock.Ledger.{Test, on_key, movements_at, held_where}
use stock_mgt.Inventory.Stock.Inbound.{Received, record_inbound-Received}
use stock_mgt.Inventory.Stock.Outbound.Effect.{Outgoing}
use stock_mgt.Inventory.Stock.Outbound.Reconcile.{Recorded, record_outbound-Recorded}

-- A product, or one of its options, at a location.
pub record Place : Type 0 where
  pub product_id : ℕ
  pub variant_id : Option ℕ
  pub location_id : ℕ

abbrev pub place_eq : Place → Place → Bool
place_eq p q =
    (p.product_id == q.product_id)
    && opt_eq p.variant_id q.variant_id
    && (p.location_id == q.location_id)

abbrev pub place_of : Key → Place
place_of key = record {
  product_id = key.product_id;
  variant_id = key.variant_id;
  location_id = key.location_id;
}

abbrev pub place : MovementInput → Place
place input = record {
  product_id = input.product_id;
  variant_id = input.variant_id;
  location_id = input.location_id;
}

abbrev pub at_place : Place → Test
at_place p key = place_eq p (place_of key)

-- `amount` at the place `q`, zero at every other.
abbrev pub at : Place → Place → ℤ → ℤ
at p q amount = if place_eq p q then amount else pos 0

pub place_eq_refl : (p : Place) → place_eq p p ≡ true
place_eq_refl p = ground (arith, opt_eq_refl p.variant_id)

pub place_eq→eq : (p q : Place) → place_eq p q ≡ true → p ≡ q
place_eq→eq p q h = ground (arith, opt_eq→eq p.variant_id q.variant_id)

pub at-add : (p q : Place) (a b : ℤ) → at p q (a +ℤ b) ≡ at p q a +ℤ at p q b
at-add p q a b = elim (Bool-cases (place_eq p q)) [ inl e ↦ rw e | inr e ↦ rw e (omega int_laws) ]

pub at-neg : (p q : Place) (a : ℤ) → at p q (neg a) ≡ neg (at p q a)
at-neg p q a = elim (Bool-cases (place_eq p q)) [ inl e ↦ rw e | inr e ↦ rw e (omega int_laws) ]

pub at_zero : (p q : Place) → at p q (pos 0) ≡ pos 0
at_zero p q = elim (Bool-cases (place_eq p q)) [ inl e ↦ rw e | inr e ↦ rw e ]

-- Movements out of one place come to their sum there.
pub movements_at-Outgoing :
    (input : OutboundInput) (p : Place) (ms : List StockMovement)
    → Outgoing input ms
    → movements_at (at_place p) ms
      ≡ at p (place input.movement) (sum_ℤ (λ (m : StockMovement). m.quantity) ms)
movements_at-Outgoing input p [] h = elim (Bool-cases (place_eq p (place input.movement))) [
  | inl e ↦ rw e
  | inr e ↦ rw e
]
movements_at-Outgoing input p (m ∷ ms) (h, hs) =
    let same : on_key (at_place p) m.key m.quantity ≡ at p (place input.movement) m.quantity =
      ap (λ (k : Key). on_key (at_place p) k m.quantity) h.0 in
    rw (same, movements_at-Outgoing input p ms hs, at-add p (place input.movement))

module _ {Db : Type 0} (w : StockWriter Db) where
  abbrev pub on_hand : Place → Db → ℤ
  on_hand p = held_where w (at_place p)

  -- From `d` to `d'` stock has come to one place, or gone from it, and no other has changed.
  abbrev pub Changed : Place → ℤ → Db → Db → Type 0
  Changed q amount d d' = (p : Place) → on_hand p d' ≡ on_hand p d +ℤ at p q amount

  pub Changed-same : (q : Place) (d : Db) → Changed q (pos 0) d d
  Changed-same q d p = rw (at_zero p q) (omega int_laws)

  -- Two changes at one place add up.
  pub Changed-then :
      (q : Place) (a b : ℤ) (d d1 d2 : Db)
      → Changed q a d d1
      → Changed q b d1 d2
      → Changed q (a +ℤ b) d d2
  Changed-then q a b d d1 d2 h k p = rw (k p, h p, at-add p q a b) (+ℤ_assoc _ _ _)

module _ {Db : Type 0} (w : StockWriter Db) (laws : IsDatabase w) (ctx : Context) where
  -- A call that brings stock in has brought in a positive quantity.
  pub record_inbound-Changed :
      (input : InboundInput) (d : Db)
      → Done
          (λ _ d'. Changed w (place input.movement) input.quantity d d' × (pos 1 ≤ℤ input.quantity))
          (record_inbound w ctx input d)
  unfolding Received
  record_inbound-Changed input d =
      Done-map _ (λ m d' h. ((λ p. (h.0 (at_place p)).1), h.2))
        (record_inbound-Received w laws ctx input d)

  -- A call that takes stock out has taken out what was asked for.
  pub record_outbound-Changed :
      (input : OutboundInput) (d : Db)
      → Done
          (λ ms d'.
            Changed w (place input.movement) (neg input.quantity) d d'
            × Outgoing input ms
            × (sum_ℤ (λ (m : StockMovement). m.quantity) ms ≡ neg input.quantity)
            × (pos 1 ≤ℤ input.quantity))
          (record_outbound w ctx input d)
  unfolding Recorded
  record_outbound-Changed input d =
      Done-map _
        (λ ms d' h.
          let (allocations, posted, total, bounded, as_moved, outgoing, positive) = h in
          (
            (λ p.
                (posted (at_place p)).1
                ∙ ap (λ x. on_hand w p d +ℤ x)
                    (as_moved (at_place p)
                      ∙ movements_at-Outgoing input p ms outgoing
                      ∙ ap (at p (place input.movement)) total)),
            outgoing,
            total,
            positive,
          ))
        (record_outbound-Recorded w laws ctx input d)
