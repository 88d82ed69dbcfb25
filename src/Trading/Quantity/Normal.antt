-- ===== src/Trading/Quantity/Normal.antt =====
-- The rounding to normal quantities: what it returns is normal, and the greatest such quantity.
use mini_qmt.Common.{
  ℕ, ◌+◌, ◌-◌, ◌*◌, ◌/◌, ◌%◌, ◌≤◌, ◌<◌, ◌≡◌, ◌⊎◌, inl, inr, arith, Bool, true, false, ok, ltb,
  Bool-cases, ◌==◌, ◌||◌, ◌&&◌, ◌∙◌,
}
use mini_qmt.Common.Int.{pos_part}
use mini_qmt.Decimal
use mini_qmt.Decimal.{Decimal}
use mini_qmt.Trading.Quantity.{
  round_down, round_down_normal_quantity, is_normal_quantity, normalize_sell_declaration,
}
use native.Mathlib.Nat.{
  div-mul-le_self, le-div_iff_mul-le, div-add-mod', mul-mod_left, mul-le-mul_right,
}

-- The minimum declaration and a number of steps.
abbrev pub IsNormal : ℕ → ℕ → ℕ → Type 0
IsNormal q minimum step = (k : ℕ) × (q ≡ minimum + k * step)

pub round_down-IsNormal :
    (top minimum step : ℕ)
    → (round_down top minimum step ≡ 0) ⊎ IsNormal (round_down top minimum step) minimum step
unfolding round_down
round_down-IsNormal top minimum step = elim (Bool-cases (ltb top minimum)) [
  | inl short ↦ inl (rw short)
  | inr enough ↦ inr ((top - minimum) / step, rw enough)
]

pub round_down-le : (top minimum step : ℕ) → round_down top minimum step ≤ top
unfolding round_down
round_down-le top minimum step = ground (arith, div-mul-le_self (top - minimum) step)

-- No normal quantity up to `top` is greater.
pub round_down_greatest :
    (top minimum step k : ℕ)
    → 0 < step
    → minimum + k * step ≤ top
    → minimum + k * step ≤ round_down top minimum step
unfolding round_down
round_down_greatest top minimum step k positive fits =
    let more : k ≤ (top - minimum) / step = (le-div_iff_mul-le positive).1 (omega arith) in
    ground (arith, mul-le-mul_right step more)

-- The program's own test accepts exactly the normal quantities.
pub is_normal_quantity_iff :
    (q minimum step : ℕ)
    → 0 < step
    → (is_normal_quantity q minimum step ≡ ok true → IsNormal q minimum step)
      × (IsNormal q minimum step → is_normal_quantity q minimum step ≡ ok true)
unfolding is_normal_quantity
is_normal_quantity_iff q minimum step positive = (
  λ h. ((q - minimum) / step, ground (arith, div-add-mod' (q - minimum) step)),
  λ (k, e).
      let multiple : q - minimum ≡ k * step = omega arith in
      let exact : (q - minimum) % step ≡ 0 = rw multiple (mul-mod_left k step) in ground (arith),
)

-- A fractional or whole value is rounded down to a normal quantity of at most its integer part.
pub round_down_normal_quantity_lem :
    (value : Decimal) (minimum step q : ℕ)
    → round_down_normal_quantity value minimum step ≡ ok q
    → (q ≡ 0)
      ⊎ (IsNormal q minimum step
          × (q ≤ pos_part (Decimal.floor value))
          × (0 < minimum)
          × (0 < step))
unfolding round_down_normal_quantity
round_down_normal_quantity_lem value minimum step q h =
    elim (Bool-cases (Decimal.le value (Decimal.of_ℕ 0))) [
      | inl nothing ↦ inl (ground arith)
      | inr some_value ↦ elim (Bool-cases (minimum == 0 || step == 0)) [
        | inl broken ↦ absurd (ground arith)
        | inr rule ↦ rounded rule (ground arith)
      ]
    ]
  where
    top : ℕ
    top = pos_part (Decimal.floor value)

    rounded :
        (minimum == 0 || step == 0) ≡ false
        → q ≡ round_down top minimum step
        → (q ≡ 0) ⊎ (IsNormal q minimum step × (q ≤ top) × (0 < minimum) × (0 < step))
    rounded rule e = elim (round_down-IsNormal top minimum step) [
      | inl none_fits ↦ inl (e ∙ none_fits)
      | inr normal ↦
          inr (rw e normal, rw e (round_down-le top minimum step), ground arith, ground arith)
    ]

pub round_down_normal_quantity-le :
    (n minimum step q : ℕ) → round_down_normal_quantity (Decimal.of_ℕ n) minimum step ≡ ok q → q ≤ n
unfolding round_down_normal_quantity Decimal.floor
round_down_normal_quantity-le n minimum step q h =
    ground (arith, round_down-le (n / 1) minimum step)

-- A declared sale is at most what was asked for: the whole position, or a normal quantity.
pub normalize_sell_declaration_lem :
    (requested held minimum step q : ℕ) (odd : Bool)
    → normalize_sell_declaration requested held minimum step odd ≡ ok q
    → (q ≤ requested) × ((q ≡ 0) ⊎ ((q ≡ held) × (odd ≡ true)) ⊎ IsNormal q minimum step)
unfolding normalize_sell_declaration
normalize_sell_declaration_lem requested held minimum step q odd h =
    elim (Bool-cases (requested == 0)) [
      | inl nothing ↦ (ground arith, inl (ground arith))
      | inr some_shares ↦ elim (Bool-cases (odd && requested == held)) [
        | inl all ↦ (ground arith, inr (inl (ground arith)))
        | inr part ↦ rounded (ground arith)
      ]
    ]
  where
    rounded :
        round_down_normal_quantity (Decimal.of_ℕ requested) minimum step ≡ ok q
        → (q ≤ requested) × ((q ≡ 0) ⊎ ((q ≡ held) × (odd ≡ true)) ⊎ IsNormal q minimum step)
    rounded e = (
      round_down_normal_quantity-le requested minimum step q e,
      elim (round_down_normal_quantity_lem (Decimal.of_ℕ requested) minimum step q e) [
        | inl none_fits ↦ inl none_fits
        | inr (normal, _, _, _) ↦ inr (inr normal)
      ],
    )
