-- ===== src/Tests/Delivery.antt =====
-- A delivery put right at concrete figures.
use stock_mgt.Prelude.{◌≡◌, refl, false, none, some, List, [], ◌∷◌}
use stock_mgt.Prelude.Int.{pos, negsuc, ◌-ℤ◌, ◌+ℤ◌}
use stock_mgt.Prelude.Lists.{All}
use stock_mgt.Prelude.Sort.{sort, insert_sorted}
use stock_mgt.Inventory.DeliveryCorrection.{
  DeliveryLine, TrueFigures, Problem, plan_correction, correction_loop, judge, DisplayUnit,
  display_unit,
}
use stock_mgt.Inventory.DeliveryCorrection.Value.{Sensible, true_value_delta, plan_correction-value}

-- Seven cartons of 24 were entered.
abbrev entered : List DeliveryLine
entered =
    record {
      id = 1;
      product_id = 10;
      variant_id = none;
      batch_id = 30;
      unit_factor = 24;
      quantity_received = pos 168;
      quantity_paid_for = pos 168;
      total_cost = pos 700_000;
    }
    ∷ []

-- Six and a half came.
abbrev truths : List TrueFigures
truths =
    record {
      line_id = 1;
      product_id = none;
      variant_id = none;
      received = pos 156;
      paid_for = pos 156;
      total_cost = pos 650_000;
    }
    ∷ []

no_problem : (plan_correction entered truths false).problems ≡ []
unfolding plan_correction correction_loop judge
no_problem = refl

bill_falls : (plan_correction entered truths false).value_delta ≡ negsuc 49_999
unfolding plan_correction correction_loop judge ◌-ℤ◌ ◌+ℤ◌
bill_falls = refl

nothing_given : (plan_correction entered [] false).problems ≡ Problem.nothing_changed ∷ []
unfolding plan_correction correction_loop
nothing_given = refl

abbrev carton : DisplayUnit
carton = record { is_portion = false; factor = 24 }

abbrev piece : DisplayUnit
piece = record { is_portion = false; factor = 1 }

shown_in_cartons : display_unit 168 168 (piece ∷ carton ∷ []) ≡ some carton
unfolding display_unit sort insert_sorted
shown_in_cartons = refl

plan_correction-value_example :
    ((plan_correction entered truths false).value_delta ≡ true_value_delta entered truths)
    × All Sensible (plan_correction entered truths false).changes
plan_correction-value_example = plan_correction-value entered truths false no_problem
