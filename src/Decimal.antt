-- ===== src/Decimal.antt =====
-- Python's `decimal` in its default context: 28 significant digits, ROUND_HALF_EVEN. A value is a
-- coefficient over a power of ten. Only the value is kept apart: the exponent under which Python
-- would print it, a negative zero and the exponent limits of the context are not modelled.
pub mod Digits
pub mod Exact
pub mod Sums
pub mod Order
pub mod Ratio
pub mod Bracket
use Digits.{limit, round_digits, half_even, half_up, ceil_div, excess, expansion}
use mini_qmt.Common.{
  ℕ, zero, suc, ◌+◌, ◌-◌, ◌*◌, ◌/◌, ◌^◌, max, Bool, ltb, leb, ◌==◌, if◌then◌else◌, Result, ok, err,
  arithmetic_error,
}
use mini_qmt.Common.Int.{
  ℤ, pos, negsuc, magnitude, neg_of, on_magnitude, ◌+ℤ◌, ◌-ℤ◌, ◌*ℤ◌, ltb_ℤ, leb_ℤ, eqb_ℤ,
}

-- coefficient / 10 ^ scale
pub record Decimal : Type 0 where
  pub coefficient : ℤ
  pub scale : ℕ

-- A coefficient with `k` more decimal places.
unfoldable pub rescale : ℕ → ℤ → ℤ
rescale zero c = c
rescale (suc k) c = rescale k (c *ℤ pos 10)

-- The context's rounding of an exact result.
unfoldable pub fix : ℤ → ℕ → Decimal
fix c s = record { coefficient = on_magnitude round_digits c; scale = s }

abbrev pub of_ℤ : ℤ → Decimal
of_ℤ c = record { coefficient = c; scale = 0 }

abbrev pub of_ℕ : ℕ → Decimal
of_ℕ n = of_ℤ (pos n)

-- The coefficients of two values over one power of ten.
abbrev pub aligned {ℓ} : {A : Type ℓ} → (ℤ → ℤ → A) → Decimal → Decimal → A
aligned f a b =
    f (rescale (max a.scale b.scale - a.scale) a.coefficient)
      (rescale (max a.scale b.scale - b.scale) b.coefficient)

unfoldable pub add : Decimal → Decimal → Decimal
unfolding fix
add a b = fix (aligned ◌+ℤ◌ a b) (max a.scale b.scale)

unfoldable pub sub : Decimal → Decimal → Decimal
unfolding fix
sub a b = fix (aligned ◌-ℤ◌ a b) (max a.scale b.scale)

unfoldable pub mul : Decimal → Decimal → Decimal
unfolding fix
mul a b = fix (a.coefficient *ℤ b.coefficient) (a.scale + b.scale)

-- num / den to 28 significant digits, for a positive `den`.
unfoldable pub quotient : ℕ → ℕ → Decimal
quotient num den =
    if leb (limit * den) num
    then (let unit = 10 ^ excess (num / den) (num / den) in
        record { coefficient = pos (half_even num (den * unit) * unit); scale = 0 })
    else (let places = expansion (28 + den) num den in
        record { coefficient = pos (half_even (num * 10 ^ places) den); scale = places })

abbrev pub negated : Bool → Decimal → Decimal
negated b d = if b then record d { coefficient = neg_of (magnitude d.coefficient) } else d

abbrev pub is_negative : ℤ → Bool
is_negative a = ltb_ℤ a (pos 0)

abbrev xor : Bool → Bool → Bool
xor a b = if a then (if b then Bool.false else Bool.true) else b

-- Division; by zero it raises.
unfoldable pub div : Decimal → Decimal → Result Decimal
unfolding quotient
div a b =
    if magnitude b.coefficient == 0
    then err arithmetic_error
    else if magnitude a.coefficient == 0
    then ok (of_ℕ 0)
    else ok (
        negated (xor (is_negative a.coefficient) (is_negative b.coefficient)) (
          quotient (magnitude a.coefficient * 10 ^ b.scale)
            (magnitude b.coefficient * 10 ^ a.scale)))

-- Comparisons are exact.
unfoldable pub lt : Decimal → Decimal → Bool
lt a b = aligned ltb_ℤ a b

unfoldable pub le : Decimal → Decimal → Bool
le a b = aligned leb_ℤ a b

unfoldable pub eq : Decimal → Decimal → Bool
eq a b = aligned eqb_ℤ a b

-- Python's `min(a, b)` and `max(a, b)`: the first argument unless the second is beyond it.
unfoldable pub minimum : Decimal → Decimal → Decimal
minimum a b = if lt b a then b else a

unfoldable pub maximum : Decimal → Decimal → Decimal
maximum a b = if lt a b then b else a

-- `abs(a)`, rounded like every result
unfoldable pub absolute : Decimal → Decimal
absolute a = fix (pos (magnitude a.coefficient)) a.scale

abbrev floor_quotient : ℤ → ℕ → ℤ
floor_quotient (pos n) d = pos (n / d)
floor_quotient (negsuc n) d = neg_of (ceil_div (suc n) d)

abbrev ceil_quotient : ℤ → ℕ → ℤ
ceil_quotient (pos n) d = pos (ceil_div n d)
ceil_quotient (negsuc n) d = neg_of (suc n / d)

-- `to_integral_value` with ROUND_FLOOR, ROUND_CEILING and ROUND_HALF_UP; no precision applies.
unfoldable pub floor : Decimal → ℤ
unfolding ceil_div
floor a = floor_quotient a.coefficient (10 ^ a.scale)

unfoldable pub ceil : Decimal → ℤ
unfolding ceil_div
ceil a = ceil_quotient a.coefficient (10 ^ a.scale)

unfoldable pub round_half_up : Decimal → ℤ
unfolding half_up
round_half_up a = on_magnitude (λ m. half_up m (10 ^ a.scale)) a.coefficient

-- The coefficient of `a` at `places` decimal places, before the check of its length.
unfoldable pub at_places : ℕ → Decimal → ℤ
unfolding rescale half_up
at_places places a =
    if leb a.scale places
    then rescale (places - a.scale) a.coefficient
    else on_magnitude (λ m. half_up m (10 ^ (a.scale - places))) a.coefficient

-- `quantize` with ROUND_HALF_UP: the coefficient at `places` decimal places; a result of more than
-- 28 digits raises.
unfoldable pub quantize : ℕ → Decimal → Result ℤ
unfolding at_places
quantize places a =
    let c = at_places places a in if ltb (magnitude c) limit then ok c else err arithmetic_error
