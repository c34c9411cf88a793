-- ===== src/Inventory/Stock/Outbound/Cover.antt =====
-- `recordOutbound` never takes what is not there, unless it is forced.
use stock_mgt.Prelude.{
  ℕ, ◌≤◌, ◌≡◌, refl, true, false, ◌&&◌, List, [], ◌∷◌, arith, inl, inr, Bool-cases, map, ◌==◌,
  if◌then◌else◌, opt_eq→eq, opt_eq_refl,
}
use stock_mgt.Prelude.Int.{pos, neg, pos_part, ◌≤ℤ◌, int_laws, ltb_ℤ, +ℤ-zero, zero-+ℤ, parts_lem}
use stock_mgt.Prelude.Lists.{sum_by, select}
use stock_mgt.Prelude.Result.{ok}
use stock_mgt.Inventory.Fefo.{Allocation}
use stock_mgt.Inventory.Fefo.Cover.{taken, stock_at}
use stock_mgt.Inventory.Stock.Tables.{
  Key, key_eq, StockMovement, StockBalance, StockBatch, OutboundInput, Context,
}
use stock_mgt.Inventory.Stock.Writer.{StockWriter, IsDatabase, rows_at}
use stock_mgt.Inventory.Stock.Calls.{Done-eq}
use stock_mgt.Inventory.Stock.Ledger.{balances_at, held, held_where}
use stock_mgt.Inventory.Stock.Outbound.{
  out_key, is_at, is_named, with_batch, available_batches, record_outbound,
}
use stock_mgt.Inventory.Stock.Outbound.Effect.{drawn}
use stock_mgt.Inventory.Stock.Outbound.Reconcile.{
  Recorded, record_outbound-Recorded, drawn-OtherStock, OtherStock,
}

-- From one batch no more is drawn than the allocations take from it.
drawn-taken :
    (input : OutboundInput) (k : Key) (allocations : List Allocation)
    → neg (pos (taken k.batch_id allocations)) ≤ℤ drawn input allocations (key_eq k)
unfolding drawn
drawn-taken input k [] = omega int_laws
drawn-taken input k (a ∷ rest) = elim (Bool-cases (key_eq k (out_key input a.batch_id))) [
  | inl e ↦ rw e (grind (int_laws, drawn-taken input k rest))
  | inr e ↦ rw e (grind (int_laws, drawn-taken input k rest))
]

-- What is on hand in the rows of a key, counting no row that is negative.
positive_at : Key → List StockBalance → ℕ
positive_at k = sum_by (λ b. if key_eq k b.key then pos_part b.quantity else 0)

rows_at-none :
    (k : Key) (bs : List StockBalance)
    → rows_at k bs ≡ 0
    → (positive_at k bs ≡ 0) × (balances_at (key_eq k) bs ≡ pos 0)
unfolding positive_at
rows_at-none k [] h = (refl, refl)
rows_at-none k (b ∷ bs) h = elim (Bool-cases (key_eq k b.key)) [
  | inl e ↦ absurd (let h' = rw e at h in omega arith)
  | inr e ↦
      let h' = rw e at h in
      let (none_here, nothing) = rows_at-none k bs (omega arith) in
      rw (e, none_here, nothing) (refl, omega int_laws)
]

positive_at-balances_at :
    (k : Key) (bs : List StockBalance)
    → rows_at k bs ≤ 1
    → positive_at k bs ≤ pos_part (balances_at (key_eq k) bs)
unfolding positive_at
positive_at-balances_at k [] h = omega arith
positive_at-balances_at k (b ∷ bs) h = elim (Bool-cases (key_eq k b.key)) [
  | inl e ↦
      let h' = rw e at h in
      let (none_here, nothing) = rows_at-none k bs (omega arith) in
      rw (e, none_here, nothing, +ℤ-zero) (ground arith)
  | inr e ↦
      let h' = rw e at h in
      let rest = positive_at-balances_at k bs (omega arith) in rw (e, zero-+ℤ) (omega (arith, rest))
]

same_key :
    (input : OutboundInput) (k : Key) (b : StockBalance)
    → key_eq k (out_key input k.batch_id) ≡ true
    → is_at input b ≡ true
    → (b.key.batch_id == k.batch_id) ≡ true
    → key_eq k b.key ≡ true
same_key input k b h at_place at_lot = ground (
  arith,
  opt_eq→eq k.variant_id input.variant_id,
  opt_eq→eq b.key.variant_id input.variant_id,
  opt_eq_refl k.variant_id,
)

stock_at-positive_at :
    (input : OutboundInput) (k : Key) (lots : List StockBatch) (bs : List StockBalance)
    → key_eq k (out_key input k.batch_id) ≡ true
    → stock_at k.batch_id (
        map (with_batch lots) (
          select
            (λ b.
              is_at input b && ltb_ℤ (pos 0) b.quantity && is_named input.batch_id b.key.batch_id)
            bs))
      ≤ positive_at k bs
unfolding positive_at stock_at
stock_at-positive_at input k lots [] h = omega arith
stock_at-positive_at input k lots (b ∷ bs) h =
    elim (Bool-cases
      (is_at input b && ltb_ℤ (pos 0) b.quantity && is_named input.batch_id b.key.batch_id)) [
        | inr e ↦ rw e (omega (arith, stock_at-positive_at input k lots bs h))
        | inl e ↦ elim (Bool-cases (b.key.batch_id == k.batch_id)) [
          | inr other ↦ rw (e, other) (omega (arith, stock_at-positive_at input k lots bs h))
          | inl this ↦
              let same = same_key input k b h (ground arith) this in
              rw (e, this, same) (omega (arith, stock_at-positive_at input k lots bs h))
        ]
      ]

elsewhere :
    (input : OutboundInput) (k : Key)
    → key_eq k (out_key input k.batch_id) ≡ false
    → OtherStock input k
elsewhere input k h p v l = ground (arith, opt_eq_refl k.variant_id)

module _ {Db : Type 0} (w : StockWriter Db) (laws : IsDatabase w) (ctx : Context) where
  available-held :
      (input : OutboundInput) (d : Db) (k : Key)
      → key_eq k (out_key input k.batch_id) ≡ true
      → stock_at k.batch_id (available_batches w ctx input d) ≤ pos_part (held w k d)
  unfolding available_batches held_where
  available-held input d k h = omega (
    arith,
    stock_at-positive_at input k (w.batches d) (w.balances d) h,
    positive_at-balances_at k (w.balances d) (laws.one_row k d),
  )

  -- A movement that is not forced drives no balance below zero.
  pub record_outbound-nonneg :
      (input : OutboundInput) (d : Db) {ms : List StockMovement} {d' : Db}
      → record_outbound w ctx input d ≡ (ok ms, d')
      → input.force ≡ false
      → (k : Key) → pos 0 ≤ℤ held w k d
      → pos 0 ≤ℤ held w k d'
  unfolding Recorded
  record_outbound-nonneg input d {ms} {d'} e unforced k h =
      let (allocations, posted, total, bounded, as_moved, outgoing, positive) =
        Done-eq ms d' (record_outbound-Recorded w laws ctx input d) e in
      elim (Bool-cases (key_eq k (out_key input k.batch_id))) [
        | inl this ↦ rw ((posted (key_eq k)).1) (
            omega (
              int_laws,
              drawn-taken input k allocations,
              bounded unforced k.batch_id,
              available-held input d k this,
              parts_lem (held w k d),
            ))
        | inr other ↦
            rw
              (
                (posted (key_eq k)).1,
                drawn-OtherStock input k allocations (elsewhere input k other),
              )
              (omega int_laws)
      ]
