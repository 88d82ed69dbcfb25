-- ===== src/Decimal/Ratio.antt =====
-- Parts of a whole: the rounded quotient of a part by its whole lies between 0 and 1.
use mini_qmt.Common.{
  ℕ, zero, suc, ◌+◌, ◌*◌, ◌/◌, ◌%◌, ◌^◌, ◌≤◌, ◌<◌, ◌≡◌, refl, ap, ◌∙◌, arith, false, leb,
}
use mini_qmt.Common.Int.{pos, ◌*ℤ◌}
use mini_qmt.Decimal.{Decimal, rescale, quotient}
use mini_qmt.Decimal.Digits.{limit, half_even, half_up, expansion}
use native.Mathlib.Nat.{
  pow-zero, pow-suc, one-le-pow, mul-le-mul_right, mul_comm, le_of_mul-le-mul_right,
  lt_of_mul-lt-mul_right, div-mul-le_self, div-add-mod',
}

pub pow-add : (b m n : ℕ) → b ^ (m + n) ≡ b ^ m * b ^ n
pow-add b zero n = let z : 0 + n ≡ n = omega arith in rw (z, pow-zero) (omega arith)
pow-add b (suc m) n =
    let s : suc m + n ≡ suc (m + n) = omega arith in
    rw (s, pow-suc b (m + n), pow-suc b m, pow-add b m n) (grind arith)

-- A quotient of at most `k` divisors, and one that leaves a rest.
div-le : (n d k : ℕ) → 0 < d → n ≤ k * d → n / d ≤ k
div-le n d k h le =
    le_of_mul-le-mul_right {m = n / d} {n = k} {k = d} (omega (arith, div-mul-le_self n d)) h

div-lt : (n d k : ℕ) → n ≤ k * d → 0 < n % d → n / d < k
div-lt n d k le rest =
    lt_of_mul-lt-mul_right d {m = n / d} {n = k} (omega (arith, div-add-mod' n d))

pub half_even-le : (n d k : ℕ) → 0 < d → n ≤ k * d → half_even n d ≤ k
unfolding half_even
half_even-le n d k h le = ground (arith, div-le n d k, div-lt n d k)

pub half_up-le : (n d k : ℕ) → 0 < d → n ≤ k * d → half_up n d ≤ k
unfolding half_up
half_up-le n d k h le = grind arith

-- The value lies between 0 and 1.
pub record IsRatio (d : Decimal) : Type 0 where
  pub part : ℕ
  pub value : d.coefficient ≡ pos part
  pub bound : part ≤ 10 ^ d.scale

pub quotient-IsRatio : (num den : ℕ) → 0 < den → num ≤ den → IsRatio (quotient num den)
unfolding quotient
quotient-IsRatio num den h le = rw small (record {
  part = half_even (num * 10 ^ places) den;
  value = refl;
  bound = half_even-le (num * 10 ^ places) den (10 ^ places) h scaled;
})
  where
    places : ℕ
    places = expansion (28 + den) num den

    small : leb (limit * den) num ≡ false
    small = ground arith

    scaled : num * 10 ^ places ≤ 10 ^ places * den
    scaled = rw (mul_comm (10 ^ places) den) (mul-le-mul_right (10 ^ places) le)

times_ten : (c : ℕ) → pos c *ℤ pos 10 ≡ pos (c * 10)
unfolding ◌*ℤ◌
times_ten c = ground arith

pub rescale_pos : (k c : ℕ) → rescale k (pos c) ≡ pos (c * 10 ^ k)
unfolding rescale
rescale_pos zero c = ap pos (omega arith)
rescale_pos (suc k) c =
    rw (times_ten c) (rescale_pos k (c * 10) ∙ ap pos (rw (pow-suc 10 k) (grind arith)))

pub positive_scaled : (b s : ℕ) → 0 < b → 0 < b * 10 ^ s
positive_scaled b s h = grind (arith, one-le-pow s 10 (omega arith))
