-- ===== src/Tests/Payments.antt =====
-- Payments split over invoices, and delivery fees over lines, at concrete amounts.
use stock_mgt.Prelude.{ℕ, ◌≤◌, ◌≡◌, refl, ap, true, List, [], ◌∷◌, min, arith}
use stock_mgt.Prelude.Int.{ℤ, pos, negsuc, ◌+ℤ◌, ◌-ℤ◌, abs, with_sign, pos_part}
use stock_mgt.Prelude.Lists.{length, All}
use stock_mgt.Prelude.Result.{ok}
use stock_mgt.Prelude.Sort.{sort, insert_sorted}
use stock_mgt.Payments.Allocation.{
  Outstanding, AllocationRequest, PlannedAllocations, plan_allocations, plan_loop, check_request,
  allocate_oldest,
}
use stock_mgt.Payments.Allocation.Plan.{Covered, Apart, claimed_by, plan_allocations_sound}
use stock_mgt.Payments.Allocation.Oldest.{allocate_oldest-accepted}
use stock_mgt.Payments.Allocation.Rows.{owed_like}
use stock_mgt.Payments.Balance.{SaleBalanceInput, sale_balance}
use stock_mgt.Inventory.DeliveryFee.{
  FeeLine, split_delivery_fee, weights_of, hand_out, fee_has_somewhere_to_go, total_of,
}
use stock_mgt.Inventory.DeliveryFee.Exact.{split_delivery_fee-exact}

abbrev invoices : List Outstanding
invoices =
    record { sale_id = 1; balance = pos 5_000 }
    ∷ record { sale_id = 2; balance = negsuc 299 }
    ∷ record { sale_id = 3; balance = pos 4_000 }
    ∷ []

abbrev asked : List AllocationRequest
asked = record { sale_id = 3; amount = pos 4_000 } ∷ record { sale_id = 1; amount = pos 1_500 } ∷ []

abbrev split : PlannedAllocations
split = record { allocations = asked; unallocated = pos 500 }

asked-runs : plan_allocations (pos 6_000) asked invoices ≡ ok split
unfolding plan_allocations plan_loop check_request ◌+ℤ◌ ◌-ℤ◌
asked-runs = refl

plan_allocations_sound_example :
    (split.allocations ≡ asked)
    × (claimed_by asked +ℤ split.unallocated ≡ pos 6_000)
    × (abs (claimed_by asked) ≤ abs (pos 6_000))
    × All (Covered (pos 6_000) invoices) asked
    × Apart [] asked
plan_allocations_sound_example = plan_allocations_sound (pos 6_000) asked invoices asked-runs

allocate_oldest-accepted_example :
    (plan : PlannedAllocations) × (plan_allocations
        (pos 6_000)
        (allocate_oldest (pos 6_000) invoices)
        invoices
      ≡ ok plan)
    × (plan.allocations ≡ allocate_oldest (pos 6_000) invoices)
    × (claimed_by plan.allocations
        ≡ with_sign (pos 6_000) (min (abs (pos 6_000)) (owed_like (pos 6_000) invoices)))
    × (claimed_by plan.allocations +ℤ plan.unallocated ≡ pos 6_000)
allocate_oldest-accepted_example =
    allocate_oldest-accepted (pos 6_000) invoices (λ e. omega (arith, ap pos_part e))
      ((refl, (refl, tt)), ((refl, tt), (tt, tt)))

abbrev invoice : SaleBalanceInput
invoice = record { total = pos 12_000; allocations = pos 2_000 ∷ []; returns = pos 1_000 ∷ [] }

nine_thousand : (sale_balance invoice).balance ≡ pos 9_000
unfolding sale_balance ◌+ℤ◌ ◌-ℤ◌
nine_thousand = refl

abbrev balances : List ℤ
balances = pos 500 ∷ negsuc 199 ∷ pos 70 ∷ []

abbrev delivered : List FeeLine
delivered =
    record { total_cost = 100; quantity_received = pos 1 }
    ∷ record { total_cost = 700; quantity_received = pos 0 }
    ∷ record { total_cost = 200; quantity_received = pos 5 }
    ∷ []

-- Of 100, a third and two thirds, and nothing where nothing arrived.
fee_shared : split_delivery_fee 100 delivered ≡ ok (33 ∷ 0 ∷ 67 ∷ [])
unfolding split_delivery_fee weights_of hand_out sort insert_sorted
fee_shared = refl

arrived : fee_has_somewhere_to_go delivered ≡ true
unfolding fee_has_somewhere_to_go
arrived = refl

split_delivery_fee-exact_example :
    (shares : List ℕ) × (split_delivery_fee 100 delivered ≡ ok shares)
    × (length shares ≡ length delivered)
    × (total_of shares ≡ 100)
split_delivery_fee-exact_example = split_delivery_fee-exact 100 delivered arrived
