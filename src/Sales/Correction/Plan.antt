-- ===== src/Sales/Correction/Plan.antt =====
-- What a plan of src/modules/sales/sale-correction.ts guarantees.
use stock_mgt.Prelude.{
  ℕ, ◌≡◌, refl, ap, ◌∙◌, Bool, true, false, ◌&&◌, not, Option, none, some, List, [], is_some, arith,
  Bool-cases, Option-cases, inl, inr,
}
use stock_mgt.Prelude.Int.{ℤ, pos, ◌+ℤ◌, ◌-ℤ◌, ◌≤ℤ◌, ◌<ℤ◌, ltb_ℤ, int_laws, parts_lem}
use stock_mgt.Sales.Correction.{
  RecordedSale, PaymentOnSale, LinePriceChange, PaymentFollows, CorrectionRequest,
  SaleCorrectionPlan, Attempt, ◌>>=◌, ◌>>◌, refuse_if, line_changes, total_change, live, paid,
  latest_own, follow_down, follow_up, plan_with, walk_in_owes, changed_customer, raised_payment,
  settle, paid_down, moved_payments, plan_sale_correction,
}

>>=-planned :
    {A B : Type 0} (m : Attempt A) (f : A → Attempt B) {b : B}
    → (m >>= f) ≡ Attempt.planned b
    → (a : A) × (m ≡ Attempt.planned a) × (f a ≡ Attempt.planned b)
unfolding ◌>>=◌
>>=-planned (Attempt.planned a) f h = (a, refl, h)
>>=-planned (Attempt.refused status) f h = cc
>>=-planned (Attempt.threw e) f h = cc

>>-planned :
    {B : Type 0} (refused : Bool) (status : ℕ) (k : Attempt B) {b : B}
    → (refuse_if refused status >> k) ≡ Attempt.planned b
    → (refused ≡ false) × (k ≡ Attempt.planned b)
unfolding ◌>>◌ ◌>>=◌
>>-planned true status k h = cc
>>-planned false status k h = (refl, h)

pub planned-injective : {A : Type 0} {a b : A} → Attempt.planned a ≡ Attempt.planned b → a ≡ b
planned-injective h = cc

abbrev pub owed : RecordedSale → (total_after paid_after : ℤ) → ℤ
owed sale total_after paid_after = total_after -ℤ paid_after -ℤ sale.refunded

owes_not :
    (customer : Option ℕ) (owing : ℤ)
    → customer ≡ none
    → (not (is_some customer) && ltb_ℤ (pos 0) owing) ≡ false
    → owing ≤ℤ pos 0
owes_not none owing e h = ground arith
owes_not (some id) owing e h = cc

-- The parts of a plan, as the code computed them.
pub record Parts (sale : RecordedSale) (request : CorrectionRequest) (plan : SaleCorrectionPlan)
    : Type 0 where
  pub changes : List LinePriceChange
  pub down : Option PaymentFollows
  pub moved : List ℕ
  pub changes_lem : line_changes sale.lines [] request.lines ≡ Attempt.planned changes
  pub down_lem :
      follow_down
        (paid (live sale.payments))
        (sale.total +ℤ total_change changes)
        (live sale.payments)
      ≡ Attempt.planned down
  pub walk_in : walk_in_owes sale request changes down ≡ false
  pub plan_lem : plan_with sale request changes down moved ≡ plan

pub Parts-of :
    (sale : RecordedSale) (request : CorrectionRequest) {plan : SaleCorrectionPlan}
    → plan_sale_correction sale request ≡ Attempt.planned plan
    → Parts sale request plan
unfolding plan_sale_correction
Parts-of sale request {plan} h =
    let (changes, looped, h1) = >>=-planned (line_changes sale.lines [] request.lines) _ h in
    let (_, h2) = >>-planned _ 400 _ h1 in
    let (_, h3) = >>-planned _ 409 _ h2 in
    let (down, downed, h4) =
      >>=-planned
        (follow_down (paid (live sale.payments)) (sale.total +ℤ total_change changes)
          (live sale.payments))
        _ h3 in
    let (walk, h5) = >>-planned _ 409 _ h4 in
    let (moved, _, h6) =
      >>=-planned (moved_payments (changed_customer sale request) sale.payments) _ h5 in
    record {
      changes = changes;
      down = down;
      moved = moved;
      changes_lem = looped;
      down_lem = downed;
      walk_in = walk;
      plan_lem = planned-injective h6;
    }

-- By its own figures a plan leaves no walk-in owing.
pub planned_walk_in :
    (sale : RecordedSale) (request : CorrectionRequest) {plan : SaleCorrectionPlan}
    → plan_sale_correction sale request ≡ Attempt.planned plan
    → plan.customer_id_after ≡ none
    → owed sale plan.total_after plan.paid_after ≤ℤ pos 0
planned_walk_in sale request {plan} h none_after =
    let parts = Parts-of sale request h in
    let at_none : (plan_with sale request parts.changes parts.down parts.moved).customer_id_after
        ≡ none =
      ap (λ (q : SaleCorrectionPlan). q.customer_id_after) parts.plan_lem ∙ none_after in
    rw (← parts.plan_lem) (owes_not _ _ at_none parts.walk_in)

pub follow_up-settle :
    (sale : RecordedSale) (paid_before total_after : ℤ) (follows : Option PaymentFollows)
    (r : Option PaymentOnSale)
    → let paid_after = paid_down paid_before total_after in
      let shortfall = total_after -ℤ paid_after -ℤ sale.refunded in
      raised_payment sale paid_before shortfall ≡ r
      → follow_up sale paid_before total_after follows ≡ settle follows paid_after shortfall r
unfolding follow_up
follow_up-settle sale paid_before total_after follows r e = ap (settle follows _ _) e

-- What was paid after the plan is no more than the total, where the returns raised a credit of zero or
-- more.
follow_up-le :
    (sale : RecordedSale) (paid_before total_after : ℤ) (follows : Option PaymentFollows)
    → pos 0 ≤ℤ sale.refunded
    → (follow_up sale paid_before total_after follows).paid_after ≤ℤ total_after
follow_up-le sale paid_before total_after follows h =
    let shortfall = total_after -ℤ paid_down paid_before total_after -ℤ sale.refunded in
    elim (Option-cases (raised_payment sale paid_before shortfall)) [
      | inl e ↦
          rw (follow_up-settle sale paid_before total_after follows none e)
            (omega (int_laws, parts_lem (paid_before -ℤ total_after)))
      | inr (payment, e) ↦
          rw (follow_up-settle sale paid_before total_after follows (some payment) e)
            (omega int_laws)
    ]

raised_payment-of_full :
    (sale : RecordedSale) (paid_before shortfall : ℤ)
    → sale.total -ℤ paid_before -ℤ sale.refunded ≤ℤ pos 0
    → pos 0 <ℤ paid_before
    → ltb_ℤ (pos 0) shortfall ≡ true
    → raised_payment sale paid_before shortfall ≡ latest_own (live sale.payments) (λ p. true)
unfolding raised_payment
raised_payment-of_full sale paid_before shortfall h k e = ground arith

pub raised_payment-of_covered :
    (sale : RecordedSale) (paid_before shortfall : ℤ)
    → ltb_ℤ (pos 0) shortfall ≡ false
    → raised_payment sale paid_before shortfall ≡ none
unfolding raised_payment
raised_payment-of_covered sale paid_before shortfall e = ground arith

-- A sale paid in full, with a payment that went wholly to it, owes nothing after its plan.
follow_up-full :
    (sale : RecordedSale) (paid_before total_after : ℤ) (follows : Option PaymentFollows)
    (payment : PaymentOnSale)
    → sale.total -ℤ paid_before -ℤ sale.refunded ≤ℤ pos 0
    → pos 0 <ℤ paid_before
    → latest_own (live sale.payments) (λ p. true) ≡ some payment
    → owed sale total_after (follow_up sale paid_before total_after follows).paid_after ≤ℤ pos 0
follow_up-full sale paid_before total_after follows payment settled some_paid own =
    let shortfall = total_after -ℤ paid_down paid_before total_after -ℤ sale.refunded in
    elim (Bool-cases (ltb_ℤ (pos 0) shortfall)) [
      | inl e ↦
          rw
            (follow_up-settle sale paid_before total_after follows (some payment)
              (raised_payment-of_full sale paid_before shortfall settled some_paid e ∙ own))
            (omega int_laws)
      | inr e ↦
          rw
            (follow_up-settle sale paid_before total_after follows none
              (raised_payment-of_covered sale paid_before shortfall e))
            (grind int_laws)
    ]

-- By the plan's own figures, for a sale that was paid in full, with a payment of its own and no negative credit from
-- returns: afterwards nothing is owed on it, and no more is paid than the total.
pub planned_in_full :
    (sale : RecordedSale) (request : CorrectionRequest) {plan : SaleCorrectionPlan}
    (payment : PaymentOnSale)
    → plan_sale_correction sale request ≡ Attempt.planned plan
    → pos 0 ≤ℤ sale.refunded
    → sale.total -ℤ paid (live sale.payments) -ℤ sale.refunded ≤ℤ pos 0
    → pos 0 <ℤ paid (live sale.payments)
    → latest_own (live sale.payments) (λ p. true) ≡ some payment
    → (owed sale plan.total_after plan.paid_after ≤ℤ pos 0) × (plan.paid_after ≤ℤ plan.total_after)
planned_in_full sale request payment h refunded full some_paid own =
    let parts = Parts-of sale request h in
    let total_after = sale.total +ℤ total_change parts.changes in
    rw (← parts.plan_lem) (
      follow_up-full sale (paid (live sale.payments)) total_after parts.down payment full some_paid
          own,
      follow_up-le sale (paid (live sale.payments)) total_after parts.down refunded,
    )
