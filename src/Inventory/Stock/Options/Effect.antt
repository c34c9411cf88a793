-- ===== src/Inventory/Stock/Options/Effect.antt =====
-- What `moveIntoVariant` does to the ledger: the stock without an option is gone, and all of it is in
-- the option, lot by lot and place by place.
use stock_mgt.Prelude.{
  ℕ, ◌≡◌, refl, ◌∙◌, ap, true, false, List, [], ◌∷◌, Option, some, none, arith, ◌==◌, inl, inr,
  Bool-cases, opt_eq→eq,
}
use stock_mgt.Prelude.Int.{ℤ, pos, neg, ◌+ℤ◌, ◌-ℤ◌, int_laws, eqb_ℤ→eq}
use stock_mgt.Prelude.Lists.{select, length, sum_ℤ}
use stock_mgt.Prelude.Result.{ok}
use stock_mgt.Inventory.Stock.Tables.{
  Text, Key, key_eq, StockMovement, StockMovementType, StockBalance, Context,
}
use stock_mgt.Inventory.Stock.Writer.{StockWriter, IsDatabase}
use stock_mgt.Inventory.Stock.Calls.{Done, Done-eq, Done->>=, Done-map, Checked, lift-Checked}
use stock_mgt.Inventory.Stock.Ledger.{
  Test, on_key, balances_at, held, held_where, Posted, Posted-same, Posted-Reconciles, Reconciles,
}
use stock_mgt.Inventory.Stock.Ledger.Post.{Inserted, Applied, insert-Inserted, apply-Applied}
use stock_mgt.Inventory.Stock.Options.{
  is_optionless, with_option, half_movement, move_half, move_balances, move_into_variant,
}

-- What the moves of a list of balances change on the keys of a test.
unfoldable pub shifted : ℕ → List StockBalance → Test → ℤ
shifted variant_id bs k =
    sum_ℤ
      (λ b.
        on_key k (with_option none b.key) (neg b.quantity)
        +ℤ on_key k (with_option (some variant_id) b.key) b.quantity)
      bs

shifted-empty :
    (variant_id : ℕ) (bs : List StockBalance) (k : Test)
    → (length bs == 0) ≡ true
    → shifted variant_id bs k ≡ pos 0
unfolding shifted
shifted-empty variant_id [] k h = refl
shifted-empty variant_id (b ∷ bs) k h = ground arith

module _ {Db : Type 0} (w : StockWriter Db) (laws : IsDatabase w) (ctx : Context) where
  abbrev Halved : StockMovement → Db → StockMovement → Db → Type 0
  Halved m d _ d' = Posted w d d' (λ k. on_key k m.key m.quantity)

  move_half-Halved : (m : StockMovement) (d : Db) → Done (Halved m d) (move_half w ctx m d)
  unfolding move_half
  move_half-Halved m d = Done->>= (Inserted w m d) _ _ _ (insert-Inserted w laws m d) λ _ d1 h1.
      Done->>= (Applied w m.key m.quantity d1) _ _ _ (apply-Applied w laws ctx m.key m.quantity d1)
        λ _ d2 h2. Done.returned _ _ λ k. ((h2 k).0 ∙ (h1 k).0, rw ((h2 k).1, (h1 k).1))

  move_balances-shifted :
      (o : ℕ) (name : Text) (variant_id : ℕ) (bs : List StockBalance) (d : Db)
      → Done
          (λ _ d'. Posted w d d' (shifted variant_id bs))
          (move_balances w ctx o name variant_id bs d)
  unfolding move_balances shifted
  move_balances-shifted o name variant_id [] d =
      Done.returned _ _ λ k. (omega int_laws, omega int_laws)
  move_balances-shifted o name variant_id (b ∷ bs) d =
      let out = half_movement w ctx o name StockMovementType.transfer_out none b (neg b.quantity) in
      let into =
        half_movement w ctx o name StockMovementType.transfer_in (some variant_id) b b.quantity in
      Done->>= (Halved out d) _ _ _ (move_half-Halved out d) λ _ d1 h1.
        Done->>= (Halved into d1) _ _ _ (move_half-Halved into d1) λ _ d2 h2.
          Done->>= (λ _ d3. Posted w d2 d3 (shifted variant_id bs)) _ _ _
            (move_balances-shifted o name variant_id bs d2)
            λ rest d3 h3. Done.returned _ _ λ k. (
              rw ((h3 k).0, (h2 k).0, (h1 k).0) (omega int_laws),
              rw ((h3 k).1, (h2 k).1, (h1 k).1) (omega int_laws),
            )

  pub move_into_variant-shifted :
      (product_id variant_id : ℕ) (name : Text) (d : Db)
      → Done
          (λ _ d'.
            Posted w d d' (shifted variant_id (select (is_optionless product_id) (w.balances d))))
          (move_into_variant w ctx product_id variant_id name d)
  unfolding move_into_variant
  move_into_variant-shifted product_id variant_id name d =
      let bs = select (is_optionless product_id) (w.balances d) in
      elim (Bool-cases (length bs == 0)) [
        | inl e ↦ rw e (
            Done.returned _ _
              λ k. rw (shifted-empty variant_id bs k e) (omega int_laws, omega int_laws))
        | inr e ↦ rw e (
            Done->>= (Checked _ d) _ _ _ (lift-Checked _ d) λ o d1 h1.
              Done-map _
                (λ _ d' h. Posted-same w d d1 d' _ (ap w.movements h1.0) (ap w.balances h1.0) h)
                (move_balances-shifted o name variant_id bs d1))
      ]

-- A balance that does not move has nothing on a key without an option of this product.
unmoved :
    (product_id : ℕ) (k : Key) (b : StockBalance)
    → k.product_id ≡ product_id
    → k.variant_id ≡ none
    → is_optionless product_id b ≡ false
    → on_key (key_eq k) b.key b.quantity ≡ pos 0
unmoved product_id k b p v h = elim (Bool-cases (key_eq k b.key)) [
  | inr e ↦ rw e
  | inl e ↦
      rw e (ground (arith, eqb_ℤ→eq b.quantity (pos 0), opt_eq→eq k.variant_id b.key.variant_id))
]

out_half :
    (product_id : ℕ) (k : Key) (b : StockBalance)
    → k.variant_id ≡ none
    → is_optionless product_id b ≡ true
    → on_key (key_eq k) (with_option none b.key) (neg b.quantity)
      ≡ neg (on_key (key_eq k) b.key b.quantity)
unfolding ◌-ℤ◌
out_half product_id k b v h = elim (Bool-cases (key_eq k b.key)) [
  | inl e ↦ rw e (ground arith)
  | inr e ↦ rw e (ground (arith, opt_eq→eq b.key.variant_id none))
]

in_half_elsewhere :
    (variant_id : ℕ) (k : Key) (b : StockBalance)
    → k.variant_id ≡ none
    → on_key (key_eq k) (with_option (some variant_id) b.key) b.quantity ≡ pos 0
in_half_elsewhere variant_id k b v = ground arith

-- On a key without an option of this product, what moves is what the balances say.
shifted-optionless :
    (product_id variant_id : ℕ) (k : Key) (bs : List StockBalance)
    → k.product_id ≡ product_id
    → k.variant_id ≡ none
    → shifted variant_id (select (is_optionless product_id) bs) (key_eq k)
      ≡ neg (balances_at (key_eq k) bs)
unfolding shifted
shifted-optionless product_id variant_id k [] p v = omega int_laws
shifted-optionless product_id variant_id k (b ∷ bs) p v =
    let ih = shifted-optionless product_id variant_id k bs p v in
    elim (Bool-cases (is_optionless product_id b)) [
      | inl e ↦
          rw (e, out_half product_id k b v e, in_half_elsewhere variant_id k b v, ih)
            (omega int_laws)
      | inr e ↦ rw (e, ih, unmoved product_id k b p v e) (omega int_laws)
    ]

in_half :
    (product_id variant_id : ℕ) (k : Key) (b : StockBalance)
    → k.variant_id ≡ some variant_id
    → is_optionless product_id b ≡ true
    → on_key (key_eq k) (with_option (some variant_id) b.key) b.quantity
      ≡ on_key (key_eq (with_option none k)) b.key b.quantity
in_half product_id variant_id k b v h = elim (Bool-cases (key_eq (with_option none k) b.key)) [
  | inl e ↦ rw e (ground arith)
  | inr e ↦ rw e (ground (arith, opt_eq→eq b.key.variant_id none))
]

out_half_elsewhere :
    (variant_id : ℕ) (k : Key) (b : StockBalance)
    → k.variant_id ≡ some variant_id
    → on_key (key_eq k) (with_option none b.key) (neg b.quantity) ≡ pos 0
out_half_elsewhere variant_id k b v = ground arith

-- On a key of the option, what moves is what the balances without an option say.
shifted-option :
    (product_id variant_id : ℕ) (k : Key) (bs : List StockBalance)
    → k.product_id ≡ product_id
    → k.variant_id ≡ some variant_id
    → shifted variant_id (select (is_optionless product_id) bs) (key_eq k)
      ≡ balances_at (key_eq (with_option none k)) bs
unfolding shifted
shifted-option product_id variant_id k [] p v = refl
shifted-option product_id variant_id k (b ∷ bs) p v =
    let ih = shifted-option product_id variant_id k bs p v in
    elim (Bool-cases (is_optionless product_id b)) [
      | inl e ↦
          rw (e, out_half_elsewhere variant_id k b v, in_half product_id variant_id k b v e, ih)
            (omega int_laws)
      | inr e ↦ rw (e, ih, unmoved product_id (with_option none k) b p refl e) (omega int_laws)
    ]

abbrev pub stock_key : ℕ → Option ℕ → ℕ → ℕ → Key
stock_key product_id variant_id location_id batch_id = record {
  product_id = product_id;
  variant_id = variant_id;
  location_id = location_id;
  batch_id = batch_id;
}

module _ {Db : Type 0} (w : StockWriter Db) (laws : IsDatabase w) (ctx : Context) where
  -- When the move returns the ledger reconciles as before, and at every lot and place the product's
  -- stock without an option, below zero or above, is in the option and no longer without one.
  pub move_into_variant-moves :
      (product_id variant_id : ℕ) (name : Text) (d : Db) {ms : List StockMovement} {d' : Db}
      → move_into_variant w ctx product_id variant_id name d ≡ (ok ms, d')
      → Reconciles w d
      → (location_id batch_id : ℕ)
      → let plain = stock_key product_id none location_id batch_id in
        let option = stock_key product_id (some variant_id) location_id batch_id in
        Reconciles w d'
        × (held w plain d' ≡ pos 0)
        × (held w option d' ≡ held w option d +ℤ held w plain d)
  unfolding held_where
  move_into_variant-moves product_id variant_id name d {ms} {d'} e before location_id batch_id =
      let posted =
        Done-eq ms d' (move_into_variant-shifted w laws ctx product_id variant_id name d) e in
      let plain = stock_key product_id none location_id batch_id in
      let option = stock_key product_id (some variant_id) location_id batch_id in
      (
        Posted-Reconciles w d d' _ posted before,
        (posted (key_eq plain)).1
            ∙ rw (shifted-optionless product_id variant_id plain (w.balances d) refl refl)
                (omega int_laws),
        (posted (key_eq option)).1
            ∙ rw (shifted-option product_id variant_id option (w.balances d) refl refl),
      )
