-- ===== src/Money/Tax.antt =====
-- What the tax arithmetic of src/common/money/money.ts guarantees.
use stock_mgt.Prelude.{ℕ, zero, suc, ◌+◌, ◌*◌, ◌≤◌, ◌<◌, ◌≡◌, ap, arith}
use stock_mgt.Prelude.Int.{pos, pos_part, ◌+ℤ◌, ◌-ℤ◌, ◌≤ℤ◌, int_laws, *ℤ-pos, +ℤ-pos}
use stock_mgt.Prelude.Result.{ok}
use stock_mgt.Prelude.Round.{
  round_div, round_div_ℤ-pos, round_div_nearest, round_div_unique, round_div-le,
}
use stock_mgt.Money.{TaxSplit, split_tax_inclusive, add_tax}

-- The net part of an amount of zero or more.
pub net_of : ℕ → ℕ → ℕ
net_of gross rate = round_div (gross * 10_000) (10_000 + rate)

pub split_tax_inclusive-pos :
    (gross rate : ℕ)
    → split_tax_inclusive (pos gross) (pos rate)
      ≡ ok (record {
        gross = pos gross;
        net = pos (net_of gross rate);
        tax = pos gross -ℤ pos (net_of gross rate);
      })
unfolding split_tax_inclusive net_of
split_tax_inclusive-pos gross rate =
    rw (*ℤ-pos gross 10_000, round_div_ℤ-pos (gross * 10_000) (10_000 + rate)) (ground arith)

pub net_of-le : (gross rate : ℕ) → net_of gross rate ≤ gross
unfolding net_of
net_of-le gross rate =
    round_div-le (gross * 10_000) (10_000 + rate) gross (omega arith) (grind arith)

net_of_nearest :
    (gross rate : ℕ)
    → let d = 10_000 + rate in
      (2 * (net_of gross rate * d) ≤ 2 * (gross * 10_000) + d)
      × (2 * (gross * 10_000) + d < 2 * (net_of gross rate * d) + 2 * d)
unfolding net_of
net_of_nearest gross rate = round_div_nearest (gross * 10_000) (10_000 + rate) (omega arith)

-- A split of an amount of zero or more at a rate of zero or more returns; its parts add up to the
-- amount, neither is negative, and the net part is the nearest whole number to the exact quotient
-- (a half goes up).
pub split_tax_inclusive-exact :
    (gross rate : ℕ)
    → (t : TaxSplit) × (split_tax_inclusive (pos gross) (pos rate) ≡ ok t)
      × (t.net +ℤ t.tax ≡ pos gross)
      × (pos 0 ≤ℤ t.net)
      × (pos 0 ≤ℤ t.tax)
      × (2 * (pos_part t.net * (10_000 + rate)) ≤ 2 * (gross * 10_000) + (10_000 + rate))
      × (2 * (gross * 10_000) < 2 * (pos_part t.net * (10_000 + rate)) + (10_000 + rate))
split_tax_inclusive-exact gross rate =
    let net = net_of gross rate in
    let le = net_of-le gross rate in
    let near = net_of_nearest gross rate in
    (
      record { gross = pos gross; net = pos net; tax = pos gross -ℤ pos net },
      split_tax_inclusive-pos gross rate,
      omega int_laws,
      omega arith,
      omega int_laws,
      omega (arith, near.0),
      omega (arith, near.1),
    )

add_tax-pos :
    (net rate : ℕ) → add_tax (pos net) (pos rate) ≡ pos (net + round_div (net * rate) 10_000)
unfolding add_tax
add_tax-pos net rate = rw (*ℤ-pos net rate, round_div_ℤ-pos (net * rate) 10_000, +ℤ-pos)

net_of-add_tax : (net rate : ℕ) → net_of (net + round_div (net * rate) 10_000) rate ≡ net
unfolding net_of
net_of-add_tax net zero =
    let t = round_div (net * zero) 10_000 in
    let near = round_div_nearest (net * zero) 10_000 (omega arith) in
    round_div_unique ((net + t) * 10_000) (10_000 + zero) net (omega arith) (omega (arith, near.0))
      (omega (arith, near.1))
net_of-add_tax net (suc rate) =
    let t = round_div (net * suc rate) 10_000 in
    let near = round_div_nearest (net * suc rate) 10_000 (omega arith) in
    round_div_unique ((net + t) * 10_000) (10_000 + suc rate) net (omega arith)
      (omega (arith, near.0)) (omega (arith, near.1))

-- Splitting what `addTax` made gives the net amount back.
pub split_tax_inclusive-add_tax :
    (net rate : ℕ)
    → (t : TaxSplit) × (split_tax_inclusive (add_tax (pos net) (pos rate)) (pos rate) ≡ ok t)
      × (t.net ≡ pos net)
split_tax_inclusive-add_tax net rate =
    let gross = net + round_div (net * rate) 10_000 in
    (
      record {
        gross = pos gross;
        net = pos (net_of gross rate);
        tax = pos gross -ℤ pos (net_of gross rate);
      },
      rw add_tax-pos (split_tax_inclusive-pos gross rate),
      ap pos (net_of-add_tax net rate),
    )
