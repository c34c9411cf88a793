-- ===== src/Inventory/DeliveryFee/Exact.antt =====
-- The shares of `splitDeliveryFee` of src/modules/inventory/delivery-fee.ts make up the fee.
use stock_mgt.Prelude.{
  zero, ℕ, suc, ◌+◌, ◌-◌, ◌*◌, ◌/◌, ◌%◌, ◌≤◌, ◌<◌, ◌≡◌, refl, true, List, [], ◌∷◌, map, min, ltb,
  ◌==◌, if◌then◌else◌, arith, ◌||◌, ◌-◌, Bool-cases, inl, inr,
}
use stock_mgt.Prelude.Int.{pos, pos_part, ltb_ℤ}
use stock_mgt.Prelude.Lists.{length, any, select, sum_by, All, length-sum_by, length-map}
use stock_mgt.Prelude.Result.{ok}
use stock_mgt.Prelude.Round.{le_of_mul_le}
use stock_mgt.Prelude.Sort.{sort, sum_by-sort, All-sort}
use stock_mgt.Inventory.DeliveryFee.{
  FeeLine, Row, value_of, total_of, weights_of, rows_from, row_before, add_one, hand_out,
  by_remainder, floors, split_delivery_fee, fee_has_somewhere_to_go,
}

abbrev InRange : ℕ → List Row → Type 0
InRange n = All (λ (row : Row). row.index < n)

total_of-add_one :
    (i : ℕ) (shares : List ℕ)
    → i < length shares
    → total_of (add_one i shares) ≡ suc (total_of shares)
total_of-add_one i [] h = omega (arith, h)
total_of-add_one zero (s ∷ shares) h = omega arith
total_of-add_one (suc i) (s ∷ shares) h = omega (arith, total_of-add_one i shares (omega arith))

length-add_one : (i : ℕ) (shares : List ℕ) → length (add_one i shares) ≡ length shares
length-add_one i [] = refl
length-add_one zero (s ∷ shares) = refl
length-add_one (suc i) (s ∷ shares) = omega (arith, length-add_one i shares)

length-hand_out :
    (rows : List Row) (left : ℕ) (shares : List ℕ)
    → length (hand_out rows left shares) ≡ length shares
unfolding hand_out
length-hand_out [] left shares = refl
length-hand_out (row ∷ rows) left shares = ground (
  arith,
  length-hand_out rows (left - 1) (add_one row.index shares),
  length-add_one row.index shares,
)

-- One each, to as many rows as there are, while any is left.
total_of-hand_out :
    (rows : List Row) (left : ℕ) (shares : List ℕ)
    → InRange (length shares) rows
    → total_of (hand_out rows left shares) ≡ total_of shares + min left (length rows)
unfolding hand_out
total_of-hand_out [] left shares h = omega arith
total_of-hand_out (row ∷ rows) left shares (p, h) = ground (
  arith,
  total_of-hand_out rows (left - 1) (add_one row.index shares)
      (rw (length-add_one row.index shares) h),
  total_of-add_one row.index shares p,
)

abbrev weighed : List ℕ → ℕ
weighed = sum_by (λ w. if ltb 0 w then 1 else 0)

-- The rows that take a share of the rest are the lines of some weight.
length-rows :
    (i fee total : ℕ) (ws : List ℕ)
    → length (select (λ (row : Row). ltb 0 row.weight) (rows_from i fee total ws)) ≡ weighed ws
length-rows i fee total [] = refl
length-rows i fee total (w ∷ ws) = ground (arith, length-rows (suc i) fee total ws)

InRange-rows :
    (i fee total n : ℕ) (ws : List ℕ)
    → i + length ws ≤ n
    → InRange n (select (λ (row : Row). ltb 0 row.weight) (rows_from i fee total ws))
InRange-rows i fee total n [] h = tt
InRange-rows i fee total n (w ∷ ws) h =
    let rest = InRange-rows (suc i) fee total n ws (omega arith) in
    elim (Bool-cases (ltb 0 w)) [ inl e ↦ rw e (omega arith, rest) | inr e ↦ rw e rest ]

length-sort : (rows : List Row) → length (sort row_before rows) ≡ length rows
length-sort rows = omega (
  arith,
  length-sum_by (sort row_before rows),
  length-sum_by rows,
  sum_by-sort row_before (λ row. 1) rows,
)

length-floors : (fee total : ℕ) (ws : List ℕ) → length (floors fee total ws) ≡ length ws
length-floors fee total [] = refl
length-floors fee total (w ∷ ws) = omega (arith, length-floors fee total ws)

-- What rounding down leaves over is less than one for each line of some weight.
floors_lem :
    (fee total : ℕ) (ws : List ℕ)
    → 0 < total
    → (rest : ℕ) × (total_of (floors fee total ws) * total + rest ≡ fee * total_of ws)
      × (rest ≤ weighed ws * total)
floors_lem fee total [] h = (0, omega arith, omega arith)
floors_lem fee total (zero ∷ ws) h =
    let (rest, same, le) = floors_lem fee total ws h in
    let none_of_it : (fee * 0) / total ≡ 0 = grind arith in (rest, grind arith, grind arith)
floors_lem fee total (suc w ∷ ws) h =
    let (rest, same, le) = floors_lem fee total ws h in
    ((fee * suc w) % total + rest, grind arith, grind arith)

any-total_of : (ws : List ℕ) → any (λ w. ltb 0 w) ws ≡ true → 0 < total_of ws
any-total_of [] h = cc
any-total_of (w ∷ ws) h = elim (Bool-cases (ltb 0 w)) [
  | inl e ↦ ground arith
  | inr e ↦ ground (arith, any-total_of ws (ground arith))
]

arrived-total_of :
    (lines : List FeeLine)
    → any (λ (line : FeeLine). ltb_ℤ (pos 0) line.quantity_received) lines ≡ true
    → 0 < total_of (map (λ (line : FeeLine). pos_part line.quantity_received) lines)
arrived-total_of [] h = cc
arrived-total_of (line ∷ lines) h = elim (Bool-cases (ltb_ℤ (pos 0) line.quantity_received)) [
  | inl e ↦ ground arith
  | inr e ↦ ground (arith, arrived-total_of lines (ground arith))
]

-- A weight for each line.
length-weights_of : (lines : List FeeLine) → length (weights_of lines) ≡ length lines
unfolding weights_of
length-weights_of lines = ground (
  arith,
  length-map value_of lines,
  length-map (λ (line : FeeLine). pos_part line.quantity_received) lines,
)

-- Where something arrived, some line weighs something.
weights_of-positive :
    (lines : List FeeLine) → fee_has_somewhere_to_go lines ≡ true → 0 < total_of (weights_of lines)
unfolding weights_of fee_has_somewhere_to_go
weights_of-positive lines h = elim (Bool-cases (any (λ w. ltb 0 w) (map value_of lines))) [
  | inl e ↦ rw e (any-total_of _ e)
  | inr e ↦ rw e (arrived-total_of lines h)
]

total_of-by_remainder :
    (fee : ℕ) (ws : List ℕ)
    → 0 < total_of ws
    → let total = total_of ws in
      let shares = floors fee total ws in
      total_of (hand_out (by_remainder fee total ws) (fee - total_of shares) shares) ≡ fee
total_of-by_remainder fee ws h =
    let total = total_of ws in
    let shares = floors fee total ws in
    let (rest, same, le) = floors_lem fee total ws h in
    let ranged =
      All-sort row_before (λ (row : Row). row.index < length shares) _
        (InRange-rows 0 fee total (length shares) ws (omega (arith, length-floors fee total ws))) in
    let counted =
      length-sort (select (λ (row : Row). ltb 0 row.weight) (rows_from 0 fee total ws)) in
    let handed =
      total_of-hand_out (by_remainder fee total ws) (fee - total_of shares) shares ranged in
    let below : total_of shares * total ≤ fee * total = omega arith in
    let left : (fee - total_of shares) * total ≤ weighed ws * total = grind arith in
    let few : fee - total_of shares ≤ weighed ws = le_of_mul_le _ _ total h left in
    let le' : total_of shares ≤ fee = le_of_mul_le _ _ total h below in
    omega (arith, handed, counted, length-rows 0 fee total ws)

total_of-nothing : (lines : List FeeLine) → total_of (map (λ (line : FeeLine). 0) lines) ≡ 0
total_of-nothing [] = refl
total_of-nothing (line ∷ lines) = omega (arith, total_of-nothing lines)

fee-zero :
    (fee : ℕ) (lines : List FeeLine)
    → fee_has_somewhere_to_go lines ≡ true
    → ((fee == 0) || (length lines == 0)) ≡ true
    → fee ≡ 0
unfolding fee_has_somewhere_to_go
fee-zero fee [] h e = cc
fee-zero fee (line ∷ lines) h e = ground arith

-- A fee on a delivery of which something arrived is shared with no exception: a share for each line,
-- and the shares add up to just the fee.
pub split_delivery_fee-exact :
    (fee : ℕ) (lines : List FeeLine)
    → fee_has_somewhere_to_go lines ≡ true
    → (shares : List ℕ) × (split_delivery_fee fee lines ≡ ok shares)
      × (length shares ≡ length lines)
      × (total_of shares ≡ fee)
unfolding split_delivery_fee
split_delivery_fee-exact fee lines h =
    let ws = weights_of lines in
    let total = total_of ws in
    let positive = weights_of-positive lines h in
    let sized = length-weights_of lines in
    let shares = floors fee total ws in
    elim (Bool-cases ((fee == 0) || (length lines == 0))) [
      | inl e ↦ (
        map (λ (line : FeeLine). 0) lines,
        rw e,
        length-map _ lines,
        omega (arith, total_of-nothing lines, fee-zero fee lines h e),
      )
      | inr e ↦ (
        hand_out (by_remainder fee total ws) (fee - total_of shares) shares,
        ground arith,
        omega (
          arith,
          length-hand_out (by_remainder fee total ws) (fee - total_of shares) shares,
          length-floors fee total ws,
        ),
        total_of-by_remainder fee ws positive,
      )
    ]
