-- ===== src/Inventory/DeliveryCorrection/Value.antt =====
-- What a plan of src/modules/inventory/delivery-correction.ts that has no problem moves.
use mathlib.Core.Path.{subst}
use stock_mgt.Prelude.{
  ℕ, ◌≡◌, ◌≢◌, refl, sym, ap, ◌∙◌, Bool, true, false, ◌&&◌, not, Option, none, some, List, [], ◌∷◌,
  ◌==◌, if◌then◌else◌, arith, Bool-cases, Option-cases, inl, inr,
}
use stock_mgt.Prelude.Int.{ℤ, pos, ◌+ℤ◌, ◌-ℤ◌, ◌≤ℤ◌, ltb_ℤ, eqb_ℤ, eqb_ℤ→eq, int_laws}
use stock_mgt.Prelude.Lists.{mem, sum_ℤ, length, All}
use stock_mgt.Inventory.DeliveryCorrection.{
  DeliveryLine, TrueFigures, LineChange, Problem, line_by_id, is_swap, is_unchanged, change_of,
  Verdict, judge, Found, add_verdict, correction_loop, once_each, value_of_changes, plan_correction,
}

abbrev pub cost_of : Option DeliveryLine → ℤ
cost_of none = pos 0
cost_of (some line) = line.total_cost

-- What the recorded line that the figures are for was worth; nothing when there is none.
abbrev pub recorded_cost : List DeliveryLine → TrueFigures → ℤ
recorded_cost recorded truth = cost_of (line_by_id truth.line_id recorded)

-- How far the figures move the value of the delivery.
abbrev pub true_value_delta : List DeliveryLine → List TrueFigures → ℤ
true_value_delta recorded =
    sum_ℤ (λ (truth : TrueFigures). truth.total_cost -ℤ recorded_cost recorded truth)

-- A change that may be recorded: no more is paid for than arrived, and nothing that did not arrive has a
-- value.
abbrev pub Sensible : LineChange → Type 0
Sensible change =
    (change.paid_for ≤ℤ change.received)
    × ((eqb_ℤ change.received (pos 0) && not (eqb_ℤ change.total_cost (pos 0))) ≡ false)

once_each-nil : (problems : List Problem) → once_each [] problems ≡ [] → problems ≡ []
once_each-nil [] h = refl
once_each-nil (p ∷ problems) h = cc

-- What a verdict with no problem means.
data Judged (line : DeliveryLine) (truth : TrueFigures) : Verdict → Type 0 where
  problem : (p : Problem) → Judged line truth (Verdict.problem p)
  left_out : truth.total_cost ≡ line.total_cost → Judged line truth Verdict.left_out
  changed :
      Sensible (change_of line truth) → Judged line truth (Verdict.changed (change_of line truth))

same_cost :
    (line : DeliveryLine) (truth : TrueFigures)
    → is_unchanged line truth ≡ true
    → truth.total_cost ≡ line.total_cost
same_cost line truth u = eqb_ℤ→eq truth.total_cost line.total_cost (ground arith)

judge-Judged : (line : DeliveryLine) (truth : TrueFigures) → Judged line truth (judge line truth)
unfolding judge
judge-Judged line truth = elim (Bool-cases (ltb_ℤ truth.received truth.paid_for)) [
  | inl a ↦ rw a (Judged.problem _)
  | inr a ↦ elim (Bool-cases (is_swap line truth && eqb_ℤ truth.received (pos 0))) [
    | inl b ↦ rw (a, b) (Judged.problem _)
    | inr b ↦
        elim (Bool-cases (eqb_ℤ truth.received (pos 0) && not (eqb_ℤ truth.total_cost (pos 0)))) [
          | inl c ↦ rw (a, b, c) (Judged.problem _)
          | inr c ↦ elim (Bool-cases (is_unchanged line truth)) [
            | inl u ↦ rw (a, b, c, u) (Judged.left_out (same_cost line truth u))
            | inr u ↦ rw (a, b, c, u) (Judged.changed (grind arith, c))
          ]
        ]
  ]
]

no_problem : (p : Problem) (f : Found) → (add_verdict (Verdict.problem p) f).problems ≢ []
no_problem p f h = cc

module _ (recorded : List DeliveryLine) (seen : List ℕ) where
  loop_nil :
      (value_of_changes (correction_loop recorded seen []).changes ≡ true_value_delta recorded [])
      × All Sensible (correction_loop recorded seen []).changes
  unfolding correction_loop
  loop_nil = (refl, tt)

  module _ (truth : TrueFigures) (truths : List TrueFigures) where
    loop_none :
        line_by_id truth.line_id recorded ≡ none
        → correction_loop recorded seen (truth ∷ truths)
          ≡ add_verdict
              (Verdict.problem Problem.not_on_delivery)
              (correction_loop recorded seen truths)
    unfolding correction_loop
    loop_none e = rw (correction_loop, e) refl

    loop_seen :
        (line : DeliveryLine)
        → line_by_id truth.line_id recorded ≡ some line
        → mem line.id seen ≡ true
        → correction_loop recorded seen (truth ∷ truths)
          ≡ add_verdict (Verdict.problem Problem.given_twice) (correction_loop recorded seen truths)
    unfolding correction_loop
    loop_seen line e m = rw (correction_loop, e, m) refl

    loop_new :
        (line : DeliveryLine)
        → line_by_id truth.line_id recorded ≡ some line
        → mem line.id seen ≡ false
        → correction_loop recorded seen (truth ∷ truths)
          ≡ add_verdict (judge line truth) (correction_loop recorded (truth.line_id ∷ seen) truths)
    unfolding correction_loop
    loop_new line e m = rw (correction_loop, e, m) refl

add_verdict-problems : (v : Verdict) (f : Found) → (add_verdict v f).problems ≡ [] → f.problems ≡ []
add_verdict-problems (Verdict.problem p) f h = cc
add_verdict-problems Verdict.left_out f h = h
add_verdict-problems (Verdict.changed change) f h = h

add_verdict-changes :
    (line : DeliveryLine) (truth : TrueFigures) (v : Verdict) (f : Found) (moved : ℤ)
    → Judged line truth v
    → (add_verdict v f).problems ≡ []
    → (value_of_changes f.changes ≡ moved) × All Sensible f.changes
    → (value_of_changes (add_verdict v f).changes ≡ truth.total_cost -ℤ line.total_cost +ℤ moved)
      × All Sensible (add_verdict v f).changes
add_verdict-changes line truth v f moved (Judged.problem p) h k = cc
add_verdict-changes line truth v f moved (Judged.left_out same) h (sum, sensible) =
    (rw (sum, same) (omega int_laws), sensible)
add_verdict-changes line truth v f moved (Judged.changed good) h (sum, sensible) =
    (rw sum refl, (good, sensible))

true_value_delta-cons :
    (recorded : List DeliveryLine) (truth : TrueFigures) (truths : List TrueFigures)
    (line : DeliveryLine)
    → line_by_id truth.line_id recorded ≡ some line
    → true_value_delta recorded (truth ∷ truths)
      ≡ truth.total_cost -ℤ line.total_cost +ℤ true_value_delta recorded truths
true_value_delta-cons recorded truth truths line e =
    ap (λ o. truth.total_cost -ℤ cost_of o +ℤ true_value_delta recorded truths) e

-- The changes of a loop that met no problem.
correction_loop_lem :
    (recorded : List DeliveryLine) (seen : List ℕ) (truths : List TrueFigures)
    → (correction_loop recorded seen truths).problems ≡ []
    → (value_of_changes (correction_loop recorded seen truths).changes
        ≡ true_value_delta recorded truths)
      × All Sensible (correction_loop recorded seen truths).changes
correction_loop_lem recorded seen [] h = loop_nil recorded seen
correction_loop_lem recorded seen (truth ∷ truths) h =
    elim (Option-cases (line_by_id truth.line_id recorded)) [
      | inl e ↦
          let rest = correction_loop recorded seen truths in
          let step = loop_none recorded seen truth truths e in
          elim (no_problem Problem.not_on_delivery rest (sym (ap Found.problems step) ∙ h)) [ ]
      | inr (line, e) ↦ elim (Bool-cases (mem line.id seen)) [
        | inl m ↦
            let rest = correction_loop recorded seen truths in
            let step = loop_seen recorded seen truth truths line e m in
            elim (no_problem Problem.given_twice rest (sym (ap Found.problems step) ∙ h)) [ ]
        | inr m ↦
            let rest = correction_loop recorded (truth.line_id ∷ seen) truths in
            let step = loop_new recorded seen truth truths line e m in
            let clean = sym (ap Found.problems step) ∙ h in
            let later =
              correction_loop_lem recorded (truth.line_id ∷ seen) truths
                (add_verdict-problems (judge line truth) rest clean) in
            let (sum, sensible) =
              add_verdict-changes line truth (judge line truth) rest _ (judge-Judged line truth)
                clean later in
            (
              ap (λ (f : Found). value_of_changes f.changes) step
                  ∙ (sum ∙ sym (true_value_delta-cons recorded truth truths line e)),
              subst (λ (f : Found). All Sensible f.changes) (sym step) sensible,
            )
      ]
    ]

quiet :
    (found : Found) (fee_changed : Bool)
    → (if (length found.problems == 0) && (length found.changes == 0) && not fee_changed
        then Problem.nothing_changed ∷ []
        else found.problems)
      ≡ []
    → found.problems ≡ []
quiet found fee_changed h =
    elim (Bool-cases
      ((length found.problems == 0) && (length found.changes == 0) && not fee_changed)) [
        | inl e ↦ ground arith
        | inr e ↦ ground arith
      ]

-- A correction with no problem moves the bill by the difference, over all the lines that were given,
-- between the true values and the recorded ones; and in every change no more is paid for than
-- arrived and what did not arrive has no value.
pub plan_correction-value :
    (recorded : List DeliveryLine) (truths : List TrueFigures) (fee_changed : Bool)
    → (plan_correction recorded truths fee_changed).problems ≡ []
    → ((plan_correction recorded truths fee_changed).value_delta ≡ true_value_delta recorded truths)
      × All Sensible (plan_correction recorded truths fee_changed).changes
unfolding plan_correction
plan_correction-value recorded truths fee_changed h =
    let found = correction_loop recorded [] truths in
    correction_loop_lem recorded [] truths (quiet found fee_changed (once_each-nil _ h))
