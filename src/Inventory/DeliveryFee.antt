-- ===== src/Inventory/DeliveryFee.antt =====
-- src/modules/inventory/delivery-fee.ts: a delivery fee shared across the lines that it brought. The
-- fee and the totals of the lines are whole kobo of zero or more.
pub mod Exact
use stock_mgt.Prelude.{
  zero, ℕ, suc, ◌+◌, ◌-◌, ◌*◌, ◌/◌, ◌%◌, Bool, true, false, List, [], ◌∷◌, map, ltb, ◌==◌, ◌||◌,
  if◌then◌else◌,
}
use stock_mgt.Prelude.Int.{ℤ, pos, pos_part, ltb_ℤ}
use stock_mgt.Prelude.Lists.{length, any, select, sum_by}
use stock_mgt.Prelude.Result.{Result, ok, err, Error}
use stock_mgt.Prelude.Sort.{sort}

pub record FeeLine : Type 0 where
  pub total_cost : ℕ
  pub quantity_received : ℤ

-- An entry of `byRemainder`, with `weights[row.index]` beside it.
pub record Row : Type 0 where
  pub index : ℕ
  pub remainder : ℕ
  pub weight : ℕ

abbrev pub value_of : FeeLine → ℕ
value_of line = if ltb_ℤ (pos 0) line.quantity_received then line.total_cost else 0

abbrev pub total_of : List ℕ → ℕ
total_of = sum_by (λ w. w)

unfoldable pub weights_of : List FeeLine → List ℕ
weights_of lines =
    let by_value = map value_of lines in
    if any (λ w. ltb 0 w) by_value
    then by_value
    else map (λ (line : FeeLine). pos_part line.quantity_received) lines

abbrev pub rows_from : ℕ → (fee total : ℕ) → List ℕ → List Row
rows_from index fee total [] = []
rows_from index fee total (w ∷ ws) =
    record { index = index; remainder = (fee * w) % total; weight = w }
    ∷ rows_from (suc index) fee total ws

-- A larger remainder stands first, then the earlier line.
abbrev pub row_before : Row → Row → Bool
row_before a b =
    if ltb b.remainder a.remainder
    then true
    else if ltb a.remainder b.remainder
    then false
    else ltb a.index b.index

-- `shares[index] += 1`
abbrev pub add_one : ℕ → List ℕ → List ℕ
add_one index [] = []
add_one zero (s ∷ shares) = suc s ∷ shares
add_one (suc index) (s ∷ shares) = s ∷ add_one index shares

-- The loop over `byRemainder`.
unfoldable pub hand_out : List Row → (left : ℕ) → List ℕ → List ℕ
hand_out [] left shares = shares
hand_out (row ∷ rows) left shares =
    let rest = hand_out rows (left - 1) (add_one row.index shares) in
    if left == 0 then shares else rest

abbrev pub by_remainder : (fee total : ℕ) → List ℕ → List Row
by_remainder fee total weights =
    sort row_before (select (λ (row : Row). ltb 0 row.weight) (rows_from 0 fee total weights))

abbrev pub floors : (fee total : ℕ) → List ℕ → List ℕ
floors fee total weights = map (λ w. (fee * w) / total) weights

unfoldable pub split_delivery_fee : ℕ → List FeeLine → Result (List ℕ)
unfolding weights_of hand_out sort
split_delivery_fee fee lines =
    let weights = weights_of lines in
    let total = total_of weights in
    let shares = floors fee total weights in
    if (fee == 0) || (length lines == 0)
    then ok (map (λ (line : FeeLine). 0) lines)
    else if total == 0
    then err Error.plain
    else ok (hand_out (by_remainder fee total weights) (fee - total_of shares) shares)

unfoldable pub fee_has_somewhere_to_go : List FeeLine → Bool
fee_has_somewhere_to_go lines = any (λ (line : FeeLine). ltb_ℤ (pos 0) line.quantity_received) lines
