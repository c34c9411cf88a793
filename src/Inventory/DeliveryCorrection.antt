-- ===== src/Inventory/DeliveryCorrection.antt =====
-- src/modules/inventory/delivery-correction.ts: what putting a recorded delivery right moves. Ids are
-- numbers; the texts of the problems are left out, and each is a constructor of `Problem`.
pub mod Value
use stock_mgt.Prelude.{
  ℕ, ◌%◌, Bool, true, false, ◌&&◌, ◌||◌, not, Option, none, some, List, [], ◌∷◌, ltb, ◌==◌,
  if◌then◌else◌, opt_eq, is_some,
}
use stock_mgt.Prelude.Int.{ℤ, pos, ◌+ℤ◌, ◌-ℤ◌, ltb_ℤ, eqb_ℤ}
use stock_mgt.Prelude.Lists.{mem, find, select, any, sum_ℤ, length}
use stock_mgt.Prelude.Sort.{sort}

pub record DeliveryLine : Type 0 where
  pub id : ℕ
  pub product_id : ℕ
  pub variant_id : Option ℕ
  pub batch_id : ℕ
  pub unit_factor : ℕ
  pub quantity_received : ℤ
  pub quantity_paid_for : ℤ
  pub total_cost : ℤ

-- `variant_id` is `none` when it was omitted, and `some none` when it is null.
pub record TrueFigures : Type 0 where
  pub line_id : ℕ
  pub product_id : Option ℕ
  pub variant_id : Option (Option ℕ)
  pub received : ℤ
  pub paid_for : ℤ
  pub total_cost : ℤ

pub record LineChange : Type 0 where
  pub line : DeliveryLine
  pub new_product_id : Option ℕ
  pub new_option : Bool
  pub variant_id : Option ℕ
  pub received : ℤ
  pub paid_for : ℤ
  pub total_cost : ℤ
  pub stock_delta : ℤ

pub data Problem : Type 0 where
  not_on_delivery given_twice more_paid_for choose_option choose_product : Problem
  nothing_arrived nothing_changed : Problem

pub record CorrectionPlan : Type 0 where
  pub changes : List LineChange
  pub value_delta : ℤ
  pub problems : List Problem

-- `new Map(recorded.map((line) => [line.id, line])).get(lineId)`: a later line replaces an earlier one.
abbrev pub line_by_id : ℕ → List DeliveryLine → Option DeliveryLine
line_by_id line_id [] = none
line_by_id line_id (line ∷ lines) = elim (line_by_id line_id lines) [
  | some later ↦ some later
  | none ↦ if line.id == line_id then some line else none
]

abbrev pub new_product : DeliveryLine → TrueFigures → Option ℕ
new_product line truth = elim truth.product_id [
  | none ↦ none
  | some product_id ↦ if not (product_id == line.product_id) then some product_id else none
]

-- `truth.variantId ?? null`
abbrev pub option_or_null : TrueFigures → Option ℕ
option_or_null truth = elim truth.variant_id [ none ↦ none | some variant_id ↦ variant_id ]

abbrev pub is_new_option : DeliveryLine → TrueFigures → Bool
is_new_option line truth =
    not (is_some (new_product line truth))
    && is_some truth.variant_id
    && not (opt_eq (option_or_null truth) line.variant_id)

abbrev pub is_swap : DeliveryLine → TrueFigures → Bool
is_swap line truth = is_some (new_product line truth) || is_new_option line truth

-- `unchanged`
abbrev pub is_unchanged : DeliveryLine → TrueFigures → Bool
is_unchanged line truth =
    not (is_some (new_product line truth))
    && not (is_new_option line truth)
    && eqb_ℤ truth.received line.quantity_received
    && eqb_ℤ truth.paid_for line.quantity_paid_for
    && eqb_ℤ truth.total_cost line.total_cost

abbrev pub change_of : DeliveryLine → TrueFigures → LineChange
change_of line truth = record {
  line = line;
  new_product_id = new_product line truth;
  new_option = is_new_option line truth;
  variant_id = if is_swap line truth then option_or_null truth else line.variant_id;
  received = truth.received;
  paid_for = truth.paid_for;
  total_cost = truth.total_cost;
  stock_delta =
      if is_swap line truth then truth.received else truth.received -ℤ line.quantity_received;
}

-- What the loop does with the figures of a line.
pub data Verdict : Type 0 where
  problem : Problem → Verdict
  left_out : Verdict
  changed : LineChange → Verdict

unfoldable pub judge : DeliveryLine → TrueFigures → Verdict
judge line truth =
    if ltb_ℤ truth.received truth.paid_for
    then Verdict.problem Problem.more_paid_for
    else if is_swap line truth && eqb_ℤ truth.received (pos 0)
    then Verdict.problem
        (if is_new_option line truth then Problem.choose_option else Problem.choose_product)
    else if eqb_ℤ truth.received (pos 0) && not (eqb_ℤ truth.total_cost (pos 0))
    then Verdict.problem Problem.nothing_arrived
    else if is_unchanged line truth
    then Verdict.left_out
    else Verdict.changed (change_of line truth)

pub record Found : Type 0 where
  pub changes : List LineChange
  pub problems : List Problem

abbrev pub add_verdict : Verdict → Found → Found
add_verdict (Verdict.problem p) found = record found { problems = p ∷ found.problems }
add_verdict Verdict.left_out found = found
add_verdict (Verdict.changed change) found = record found { changes = change ∷ found.changes }

-- The loop over `truths`.
unfoldable pub correction_loop : List DeliveryLine → (seen : List ℕ) → List TrueFigures → Found
unfolding judge
correction_loop recorded seen [] = record { changes = []; problems = [] }
correction_loop recorded seen (truth ∷ truths) =
    let unseen = correction_loop recorded (truth.line_id ∷ seen) truths in
    let rest = correction_loop recorded seen truths in
    elim (line_by_id truth.line_id recorded) [
      | none ↦ add_verdict (Verdict.problem Problem.not_on_delivery) rest
      | some line ↦
          if mem line.id seen
          then add_verdict (Verdict.problem Problem.given_twice) rest
          else add_verdict (judge line truth) unseen
    ]

abbrev pub problem_code : Problem → ℕ
problem_code Problem.not_on_delivery = 0
problem_code Problem.given_twice = 1
problem_code Problem.more_paid_for = 2
problem_code Problem.choose_option = 3
problem_code Problem.choose_product = 4
problem_code Problem.nothing_arrived = 5
problem_code Problem.nothing_changed = 6

-- `[...new Set(problems)]`, with the problems that were met before.
abbrev pub once_each : (met : List ℕ) → List Problem → List Problem
once_each met [] = []
once_each met (p ∷ problems) =
    if mem (problem_code p) met
    then once_each met problems
    else p ∷ once_each (problem_code p ∷ met) problems

abbrev pub value_of_changes : List LineChange → ℤ
value_of_changes = sum_ℤ (λ (change : LineChange). change.total_cost -ℤ change.line.total_cost)

unfoldable pub plan_correction :
    List DeliveryLine → List TrueFigures → (fee_changed : Bool) → CorrectionPlan
unfolding correction_loop
plan_correction recorded truths fee_changed =
    let found = correction_loop recorded [] truths in
    let idle = (length found.problems == 0) && (length found.changes == 0) && not fee_changed in
    record {
      changes = found.changes;
      value_delta = value_of_changes found.changes;
      problems = once_each [] (if idle then Problem.nothing_changed ∷ [] else found.problems);
    }

-- A unit of a product; `is_portion` is the test of its name for "1/2 carton".
pub record DisplayUnit : Type 0 where
  pub is_portion : Bool
  pub factor : ℕ

abbrev pub holds_whole : (received paid_for : ℕ) → DisplayUnit → Bool
holds_whole received paid_for unit =
    ((received % unit.factor) == 0) && ((paid_for % unit.factor) == 0)

unfoldable pub display_unit : (received paid_for : ℕ) → List DisplayUnit → Option DisplayUnit
unfolding sort
display_unit received paid_for units =
    let whole =
      sort (λ (a b : DisplayUnit). ltb b.factor a.factor)
        (select (holds_whole received paid_for)
          (select (λ (unit : DisplayUnit). not unit.is_portion) units)) in
    elim whole [
      | [] ↦ find (λ (unit : DisplayUnit). unit.factor == 1) units
      | unit ∷ rest ↦ some unit
    ]
