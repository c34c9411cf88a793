-- ===== src/Cash.antt =====
-- src/modules/cash/cash.ts: the cash that a person still holds. Times are milliseconds since 1970.
use stock_mgt.Prelude.{ℕ, Option, none, some, List, [], ◌∷◌, if◌then◌else◌, arith}
use stock_mgt.Prelude.Int.{ℤ, pos, ◌+ℤ◌, ◌-ℤ◌, ◌≤ℤ◌, leb_ℤ, clip, int_laws}
use stock_mgt.Prelude.Lists.{sum_ℤ}

pub record CashFigures : Type 0 where
  pub received : ℤ
  pub paid_out : ℤ
  pub banked : ℤ
  pub waiting : ℤ

unfoldable pub still_holding : CashFigures → ℤ
still_holding figures = figures.received -ℤ figures.paid_out -ℤ figures.banked -ℤ figures.waiting

pub record Receipt : Type 0 where
  pub amount : ℤ
  pub occurred_at : ℕ

-- `receiptsNewestFirst.at(-1)?.occurredAt ?? null`
abbrev pub last_at : List Receipt → Option ℕ
last_at [] = none
last_at (receipt ∷ []) = some receipt.occurred_at
last_at (receipt ∷ next ∷ rest) = last_at (next ∷ rest)

-- The loop of `oldestUnbanked`; `none` when it runs off the end.
unfoldable pub covering : (held covered : ℤ) → List Receipt → Option ℕ
covering held covered [] = none
covering held covered (receipt ∷ rest) =
    let later = covering held (covered +ℤ receipt.amount) rest in
    if leb_ℤ held (covered +ℤ receipt.amount) then some receipt.occurred_at else later

unfoldable pub oldest_unbanked : (held : ℤ) → List Receipt → Option ℕ
unfolding covering
oldest_unbanked held receipts =
    if leb_ℤ held (pos 0)
    then none
    else elim (covering held (pos 0) receipts) [ some at ↦ some at | none ↦ last_at receipts ]

unfoldable pub not_banked : List ℤ → ℤ
not_banked holdings = sum_ℤ (λ held. clip held) holdings

abbrev pub total_held : List ℤ → ℤ
total_held = sum_ℤ (λ held. held)

-- What a shop counts as not banked is never below zero and never less than its holders hold together:
-- someone who is owed takes nothing off what others hold.
pub not_banked-covers :
    (holdings : List ℤ)
    → (pos 0 ≤ℤ not_banked holdings) × (total_held holdings ≤ℤ not_banked holdings)
unfolding not_banked
not_banked-covers [] = (omega arith, omega arith)
not_banked-covers (held ∷ holdings) =
    let (above, covers) = not_banked-covers holdings in (omega int_laws, omega int_laws)
