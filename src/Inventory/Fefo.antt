-- ===== src/Inventory/Fefo.antt =====
-- src/modules/inventory/fefo.ts. Times are milliseconds since 1970; ids are numbers in the order
-- that `localeCompare` gives the source's strings.
pub mod Order
pub mod Cover
use stock_mgt.Prelude.{
  ℕ, ◌-◌, Bool, not, Option, none, some, List, [], ◌∷◌, min, ltb, ◌==◌, if◌then◌else◌, opt_eq,
}
use stock_mgt.Prelude.Int.{ℤ, pos, pos_part, leb_ℤ, Sign, eqb_sign}
use stock_mgt.Prelude.Result.{Result, ok, err, Error}
use stock_mgt.Prelude.Sort.{sort}

pub record AllocatableBatch : Type 0 where
  pub batch_id : ℕ
  pub quantity : ℤ
  pub expiry_date : Option ℕ
  pub received_at : ℕ

pub record Allocation : Type 0 where
  pub batch_id : ℕ
  pub quantity : ℕ

pub record AllocationResult : Type 0 where
  pub allocations : List Allocation
  pub shortfall : ℕ

-- The sign of `a - b`, and of `a.localeCompare(b)`.
abbrev pub difference : ℕ → ℕ → Sign
difference a b = if ltb a b then Sign.minus else if ltb b a then Sign.plus else Sign.nought

abbrev pub expiry_order : Option ℕ → Option ℕ → Sign
expiry_order none b = Sign.plus
expiry_order (some a) none = Sign.minus
expiry_order (some a) (some b) = difference a b

-- The comparator of `sortFefo`.
abbrev pub fefo_compare : AllocatableBatch → AllocatableBatch → Sign
fefo_compare a b =
    if not (opt_eq a.expiry_date b.expiry_date)
    then expiry_order a.expiry_date b.expiry_date
    else let received = difference a.received_at b.received_at in
      if not (eqb_sign received Sign.nought) then received else difference a.batch_id b.batch_id

unfoldable pub goes_before : AllocatableBatch → AllocatableBatch → Bool
goes_before a b = eqb_sign (fefo_compare a b) Sign.minus

unfoldable pub sort_fefo : List AllocatableBatch → List AllocatableBatch
unfolding goes_before sort
sort_fefo batches = sort goes_before batches

-- The loop of `allocateFefo`: what is taken, and what is left to take.
unfoldable pub allocate_loop : List AllocatableBatch → ℕ → AllocationResult
allocate_loop [] remaining = record { allocations = []; shortfall = remaining }
allocate_loop (batch ∷ batches) remaining =
    let skipped = allocate_loop batches remaining in
    let take = min (pos_part batch.quantity) remaining in
    let rest = allocate_loop batches (remaining - take) in
    if remaining == 0
    then record { allocations = []; shortfall = remaining }
    else if leb_ℤ batch.quantity (pos 0)
    then skipped
    else record {
      allocations = record { batch_id = batch.batch_id; quantity = take } ∷ rest.allocations;
      shortfall = rest.shortfall;
    }

unfoldable pub allocate_fefo : List AllocatableBatch → ℤ → Result AllocationResult
unfolding allocate_loop sort_fefo
allocate_fefo batches quantity =
    if leb_ℤ quantity (pos 0)
    then err Error.range
    else ok (allocate_loop (sort_fefo batches) (pos_part quantity))
