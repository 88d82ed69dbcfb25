-- ===== src/Decimal/Digits.antt =====
-- Rounding of non-negative numerators: the digit count of the context, and the rounding modes.
use mini_qmt.Common.{ℕ, zero, suc, ◌+◌, ◌*◌, ◌/◌, ◌%◌, ◌^◌, ltb, ◌==◌, if◌then◌else◌}

-- The first number that needs 29 digits.
abbrev pub limit : ℕ
limit = 10 ^ 28

-- How many digits a number has beyond 28; the first argument is fuel.
unfoldable pub excess : ℕ → ℕ → ℕ
excess zero m = 0
excess (suc f) m = let rest = suc (excess f (m / 10)) in if ltb m limit then 0 else rest

unfoldable pub half_even : ℕ → ℕ → ℕ
half_even n d =
    if ltb d (2 * (n % d))
    then n / d + 1
    else if (2 * (n % d)) == d
    then n / d + (n / d) % 2
    else n / d

unfoldable pub half_up : ℕ → ℕ → ℕ
half_up n d = (2 * n + d) / (2 * d)

unfoldable pub ceil_div : ℕ → ℕ → ℕ
ceil_div n d = if (n % d) == 0 then n / d else n / d + 1

-- A coefficient of more than 28 digits is rounded to 28, and filled up with zeros.
unfoldable pub round_digits : ℕ → ℕ
round_digits m = if ltb m limit then m else (let unit = 10 ^ excess m m in half_even m unit * unit)

-- How many decimal places `num / den` can take within 28 digits; the first argument is fuel.
unfoldable pub expansion : ℕ → ℕ → ℕ → ℕ
expansion zero num den = 0
expansion (suc f) num den =
    let more = suc (expansion f (num * 10) den) in if ltb (num * 10) (limit * den) then more else 0
