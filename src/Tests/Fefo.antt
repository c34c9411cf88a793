-- ===== src/Tests/Fefo.antt =====
-- Allocation at concrete batches.
use mathlib.Core.List.{Perm}
use stock_mgt.Prelude.{
  ℕ, ◌≡◌, refl, ◌+◌, ◌-◌, ◌≤◌, ◌<◌, none, some, List, [], ◌∷◌, min, Option, arith,
}
use stock_mgt.Prelude.Int.{ℤ, pos, negsuc}
use stock_mgt.Prelude.Lists.{All}
use stock_mgt.Prelude.Result.{ok, err, Error}
use stock_mgt.Prelude.Sort.{sort, insert_sorted}
use stock_mgt.Inventory.Fefo.{
  AllocatableBatch, AllocationResult, sort_fefo, allocate_fefo, allocate_loop, goes_before,
}
use stock_mgt.Inventory.Fefo.Order.{Ordered, sort_fefo-Ordered}
use stock_mgt.Inventory.Fefo.Cover.{
  allocate_fefo-covers, allocate_fefo-share, total_taken, available, taken, stock_at, stock_in,
}

abbrev batch : ℕ → ℤ → Option ℕ → ℕ → AllocatableBatch
batch id quantity expiry_date received_at = record {
  batch_id = id;
  quantity = quantity;
  expiry_date = expiry_date;
  received_at = received_at;
}

abbrev undated : AllocatableBatch
undated = batch 1 (pos 9) none 5

abbrev owed : AllocatableBatch
owed = batch 2 (negsuc 3) (some 10) 6

abbrev late : AllocatableBatch
late = batch 3 (pos 4) (some 40) 1

abbrev early : AllocatableBatch
early = batch 4 (pos 3) (some 20) 7

abbrev shelf : List AllocatableBatch
shelf = undated ∷ owed ∷ late ∷ early ∷ []

sort_shelf : sort_fefo shelf ≡ owed ∷ early ∷ late ∷ undated ∷ []
unfolding sort_fefo goes_before sort insert_sorted
sort_shelf = refl

-- Five units: all of the early batch and two of the late one; the batch below zero is passed over.
allocate_shelf :
    allocate_fefo shelf (pos 5)
    ≡ ok (record {
      allocations =
          record { batch_id = 4; quantity = 3 } ∷ record { batch_id = 3; quantity = 2 } ∷ [];
      shortfall = 0;
    })
unfolding allocate_fefo allocate_loop sort_fefo goes_before sort insert_sorted
allocate_shelf = refl

allocate_nothing : allocate_fefo shelf (pos 0) ≡ err Error.range
unfolding allocate_fefo
allocate_nothing = refl

sort_fefo-Ordered_example : Perm (sort_fefo shelf) shelf × Ordered (sort_fefo shelf)
sort_fefo-Ordered_example = sort_fefo-Ordered shelf

allocate_fefo-covers_example :
    (r : AllocationResult) × (allocate_fefo shelf (pos 20) ≡ ok r)
    × (total_taken r.allocations + r.shortfall ≡ 20)
    × (r.shortfall ≡ 20 - available shelf)
    × All (λ a. 0 < a.quantity) r.allocations
    × ((id : ℕ) → taken id r.allocations ≤ stock_at id shelf)
allocate_fefo-covers_example = allocate_fefo-covers shelf 20 (omega arith)

allocate_fefo-share_example :
    (r : AllocationResult) × (allocate_fefo shelf (pos 5) ≡ ok r)
    × (taken 3 r.allocations ≡ min (stock_in late) (5 - available (owed ∷ early ∷ [])))
allocate_fefo-share_example =
    allocate_fefo-share shelf 5 (owed ∷ early ∷ []) late (undated ∷ []) (omega arith) sort_shelf
      (omega arith, (omega arith, tt)) (omega arith, tt)
