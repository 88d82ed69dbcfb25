-- ===== src/Trading/Quantity.antt =====
-- trading/kernel.py, the order quantities: a normal quantity is the minimum declaration plus a
pub mod Normal
-- multiple of the quantity step.
use mini_qmt.Common.{
  ℕ, ◌+◌, ◌-◌, ◌*◌, ◌/◌, ◌%◌, ◌≡◌, Bool, true, false, ◌&&◌, ◌||◌, ltb, leb, ◌==◌, if◌then◌else◌,
  Result, ok, err, value_error, arithmetic_error,
}
use mini_qmt.Common.Int.{ℤ, pos_part}
use mini_qmt.Decimal
use mini_qmt.Decimal.{Decimal}

-- The greatest normal quantity up to `top`, or 0.
unfoldable pub round_down : ℕ → ℕ → ℕ → ℕ
round_down top minimum step =
    if ltb top minimum then 0 else minimum + ((top - minimum) / step) * step

-- `_round_down_normal_quantity`
unfoldable pub round_down_normal_quantity : Decimal → ℕ → ℕ → Result ℕ
round_down_normal_quantity value minimum step =
    if Decimal.le value (Decimal.of_ℕ 0)
    then ok 0
    else if minimum == 0 || step == 0
    then err value_error
    else ok (round_down (pos_part (Decimal.floor value)) minimum step)

-- `_is_normal_quantity`; the remainder by a step of zero raises.
unfoldable pub is_normal_quantity : ℕ → ℕ → ℕ → Result Bool
is_normal_quantity quantity minimum step =
    if ltb quantity minimum
    then ok false
    else if step == 0
    then err arithmetic_error
    else ok (((quantity - minimum) % step) == 0)

-- `_normalize_sell_declaration`
unfoldable pub normalize_sell_declaration : ℕ → ℕ → ℕ → ℕ → Bool → Result ℕ
normalize_sell_declaration requested total_position minimum step odd_lot_sell_all =
    if requested == 0
    then ok 0
    else if odd_lot_sell_all && requested == total_position
    then ok requested
    else round_down_normal_quantity (Decimal.of_ℕ requested) minimum step
