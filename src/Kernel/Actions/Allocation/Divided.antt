-- ===== src/Kernel/Actions/Allocation/Divided.antt =====
-- How the cost of a position is divided between the held and the new shares of a distribution
-- (trading/kernel.py, `_allocate_share_action_cost`).
use mini_qmt.Common.{
  ℕ, zero, suc, ◌+◌, ◌-◌, ◌*◌, ◌^◌, ◌≤◌, ◌<◌, ◌≡◌, refl, arith, false, ltb, ok, err,
  arithmetic_error, if◌then◌else◌,
}
use mini_qmt.Common.Int.{pos, magnitude, ◌+ℤ◌, ◌-ℤ◌, ◌*ℤ◌, eqb_ℤ, int_laws}
use native.Mathlib.Nat.{le_of_mul-le-mul_right}
use mini_qmt.Decimal
use mini_qmt.Decimal.{Decimal, fix, mul, sub, div, quotient, quantize, rescale, at_places}
use mini_qmt.Decimal.Digits.{limit}
use mini_qmt.Decimal.Exact.{of_cents, round_digits_exact}
use mini_qmt.Decimal.Bracket.{Brackets, quotient-Brackets, at_places-brackets}
use mini_qmt.Trading.Fees.{money}
use mini_qmt.Kernel.Actions.Allocation.{divide_cost}

-- The cost times the held shares, without loss.
mul_exact :
    (cost held : ℕ)
    → cost * held < limit
    → mul (of_cents (pos cost)) (Decimal.of_ℕ held)
      ≡ record { coefficient = pos (cost * held); scale = 2 }
unfolding mul fix ◌*ℤ◌
mul_exact cost held h = ground (arith, round_digits_exact (cost * held))

sub_exact :
    (a b : ℕ)
    → b ≤ a
    → a < limit
    → sub (of_cents (pos a)) (of_cents (pos b)) ≡ of_cents (pos (a - b))
unfolding sub fix rescale ◌-ℤ◌
sub_exact a b h k = ground (arith, round_digits_exact (a - b))

money_exact : (n : ℕ) → n < limit → money (of_cents (pos n)) ≡ ok (pos n)
unfolding money quantize rescale
money_exact n h = ground arith

-- A quotient in cents.
quantize_quotient :
    (p all cost : ℕ) (q : Decimal)
    → 0 < all
    → p ≤ cost * all
    → cost < limit
    → Brackets 2 (p * 10 ^ 0) (all * 10 ^ 2) q
    → (part : ℕ) × (money q ≡ ok (pos part))
      × ((k : ℕ) → k * all ≤ p → k ≤ part)
      × ((k : ℕ) → p ≤ k * all → part ≤ k)
unfolding money quantize
quantize_quotient p all cost q h le small b =
    let (part, e, least, most) = at_places-brackets 2 b.part q b.value in
    let above = λ (k : ℕ) (l : p ≤ k * all). most k (b.most k (down k l)) in
    (part, rw e (short part (above cost le)), λ k l. least k (b.least k (up k l)), above)
  where
    up : (k : ℕ) → k * all ≤ p → k * (all * 10 ^ 2) ≤ p * 10 ^ 0 * 10 ^ 2
    up k l = grind arith

    down : (k : ℕ) → p ≤ k * all → p * 10 ^ 0 * 10 ^ 2 ≤ k * (all * 10 ^ 2)
    down k l = grind arith

    short :
        (r : ℕ)
        → r ≤ cost
        → (if ltb (magnitude (pos r)) limit then ok (pos r) else err arithmetic_error) ≡ ok (pos r)
    short r l = ground (arith, small)

part_money :
    (p all cost : ℕ)
    → 0 < all
    → p ≤ cost * all
    → cost < limit
    → p < limit
    → (q : Decimal) × (part : ℕ) × (div
          (record { coefficient = pos p; scale = 2 })
          (Decimal.of_ℤ (pos all))
        ≡ ok q)
      × (money q ≡ ok (pos part))
      × ((k : ℕ) → k * all ≤ p → k ≤ part)
      × ((k : ℕ) → p ≤ k * all → part ≤ k)
unfolding div ◌*ℤ◌
part_money zero all cost h le small short = (
  Decimal.of_ℕ 0,
  0,
  ground arith,
  unfold money quantize at_places rescale in refl,
  λ k l. le_of_mul-le-mul_right {m = k} {n = 0} {k = all} (omega (arith, l)) h,
  λ k l. omega arith,
)
part_money (suc p) all cost h le small short =
    let q = quotient (suc p * 10 ^ 0) (all * 10 ^ 2) in
    let (part, rounded, least, most) = quantize_quotient (suc p) all cost q h le small (
      quotient-Brackets 2 (suc p * 10 ^ 0) (all * 10 ^ 2) (omega (arith, h))
        (omega (arith, h, short)) (omega arith)) in
    (q, part, ground arith, rounded, least, most)

-- What the division of a cost comes to.
pub record Divided (cost held new : ℕ) : Type 0 where
  pub old_cost : ℕ
  pub new_cost : ℕ
  pub returns : divide_cost (pos cost) held (pos new) ≡ ok (pos old_cost, pos new_cost)
  pub whole : old_cost + new_cost ≡ cost
  pub least : (k : ℕ) → k * (held + new) ≤ cost * held → k ≤ old_cost
  pub most : (k : ℕ) → cost * held ≤ k * (held + new) → old_cost ≤ k

-- A cost of at most 28 digits, also when it is multiplied by the held shares, is divided between held and
-- new shares, of which there are some, without a remainder. The held shares keep their part in
-- proportion, rounded to a cent next to it: at least `k` cents if they are due `k` cents or more, and
-- at most `k` cents if they are due `k` cents or less.
pub divide_cost-Divided :
    (cost held new : ℕ)
    → 0 < held + new
    → cost < limit
    → cost * held < limit
    → Divided cost held new
unfolding divide_cost
divide_cost-Divided cost held new h small short =
    let (q, part, divided, rounded, least, most) =
      part_money (cost * held) (held + new) cost h (within cost held new) small short in
    let le : part ≤ cost = most cost (within cost held new) in
    record {
      old_cost = part;
      new_cost = cost - part;
      returns =
          rw
            (
              added held new,
              not_zero (held + new) h,
              mul_exact cost held short,
              divided,
              rounded,
              sub_exact cost part le small,
              money_exact (cost - part) (omega (arith, small)),
            )
            refl;
      whole = omega (arith, le);
      least = least;
      most = most;
    }
  where
    within : (cost held new : ℕ) → cost * held ≤ cost * (held + new)
    within cost held new = grind arith

    added : (m n : ℕ) → pos m +ℤ pos n ≡ pos (m + n)
    added m n = omega int_laws

    not_zero : (n : ℕ) → 0 < n → eqb_ℤ (pos n) (pos 0) ≡ false
    not_zero n h = ground arith
