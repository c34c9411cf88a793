-- ===== src/Prelude/Round.antt =====
-- `Math.round` of an exact fraction: the nearest whole number, a half going up (towards positive
-- infinity, as JavaScript rounds it).
use native.Mathlib.Nat.{div-eq_of_lt-le, div-lt_iff_lt-mul}
use stock_mgt.Prelude.{ℕ, ◌+◌, ◌*◌, ◌/◌, ◌≤◌, ◌<◌, ◌≡◌, ap, arith}
use stock_mgt.Prelude.Int.{ℤ, pos, negsuc, ◌+ℤ◌, +ℤ-pos}

-- `Math.round(n / d)` for `n` of zero or more and `d` above zero.
unfoldable pub round_div : ℕ → ℕ → ℕ
round_div n d = (2 * n + d) / (2 * d)

abbrev pub floor_div : ℤ → ℕ → ℤ
floor_div (pos n) d = pos (n / d)
floor_div (negsuc n) d = negsuc (n / d)

-- `Math.round(a / d)` for any `a`.
unfoldable pub round_div_ℤ : ℤ → ℕ → ℤ
round_div_ℤ a d = floor_div (a +ℤ a +ℤ pos d) (2 * d)

-- Within a half of the exact quotient, and a half goes up.
pub round_div_nearest :
    (n d : ℕ)
    → 0 < d
    → (2 * (round_div n d * d) ≤ 2 * n + d) × (2 * n + d < 2 * (round_div n d * d) + 2 * d)
unfolding round_div
round_div_nearest n d h = grind arith

-- Only one number is that near.
pub round_div_unique :
    (n d q : ℕ)
    → 0 < d
    → 2 * (q * d) ≤ 2 * n + d
    → 2 * n + d < 2 * (q * d) + 2 * d
    → round_div n d ≡ q
unfolding round_div
round_div_unique n d q h lo hi = div-eq_of_lt-le (2 * d) (omega arith) (omega arith)

pub round_div_ℤ-pos : (n d : ℕ) → round_div_ℤ (pos n) d ≡ pos (round_div n d)
unfolding round_div_ℤ round_div
round_div_ℤ-pos n d =
    let e : n + n + d ≡ 2 * n + d = omega arith in
    rw (+ℤ-pos, +ℤ-pos) (ap (λ (m : ℕ). pos (m / (2 * d))) e)

-- A fraction that is at most a whole number rounds to at most that number.
pub round_div-le : (n d m : ℕ) → 0 < d → n ≤ m * d → round_div n d ≤ m
unfolding round_div
round_div-le n d m h le =
    let below : (2 * n + d) / (2 * d) < m + 1 =
      (div-lt_iff_lt-mul {k = 2 * d} {x = 2 * n + d} {y = m + 1} (omega arith)).1 (grind arith) in
    omega arith

pub le_of_mul_le : (a b t : ℕ) → 0 < t → a * t ≤ b * t → a ≤ b
le_of_mul_le a b t h le = grind arith
