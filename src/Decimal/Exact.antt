-- ===== src/Decimal/Exact.antt =====
-- Where the context's rounding is exact: amounts in cents are added and subtracted without loss,
-- or the result is too long for `quantize` and it raises.
use mini_qmt.Common.{
  ℕ, zero, suc, ◌*◌, ◌/◌, ◌^◌, ◌≤◌, ◌<◌, ◌≡◌, inl, inr, arith, ltb, ok, err, arithmetic_error,
  if◌then◌else◌, false, Bool-cases, ltb→lt, not_ltb→le,
}
use mini_qmt.Common.Int.{ℤ, pos, negsuc, magnitude, neg_of, on_magnitude, ◌+ℤ◌, ◌-ℤ◌}
use mini_qmt.Decimal.{Decimal, fix, add, sub, quantize, rescale}
use mini_qmt.Decimal.Digits.{limit, round_digits, excess, half_even}
use native.Mathlib.Nat.{
  pow-suc, one-le-pow, pow-succ', div-one, div-div-eq-div-mul, le-div_iff_mul-le,
}

pub round_digits_exact : (m : ℕ) → m < limit → round_digits m ≡ m
unfolding round_digits
round_digits_exact m h = ground arith

pub div-le-half_even : (n d : ℕ) → n / d ≤ half_even n d
unfolding half_even
div-le-half_even n d = ground arith

-- Dropping the excess leaves a full coefficient.
excess_bound : (f m j : ℕ) → excess f m ≡ suc j → 10 ^ 27 * 10 ^ suc j ≤ m
unfolding excess
excess_bound zero m j h = ground arith
excess_bound (suc f) m zero h = ground arith
excess_bound (suc f) m (suc i) h = ground (arith, pow-suc 10 (suc i), excess_bound f (m / 10) i)

excess-suc : (f m : ℕ) → limit ≤ m → excess (suc f) m ≡ suc (excess f (m / 10))
unfolding excess
excess-suc f m h = ground arith

-- With enough fuel at most 28 digits are left.
pub excess_enough : (f m : ℕ) → m ≤ f → m / 10 ^ excess f m < limit
unfolding excess
excess_enough zero m h = rw div-one (omega arith)
excess_enough (suc f) m h = elim (Bool-cases (ltb m limit)) [
  | inl short ↦ rw short (rw div-one (ltb→lt m limit short))
  | inr long ↦ rw long (
      rw (pow-succ' 10 (excess f (m / 10)), ← div-div-eq-div-mul m 10 (10 ^ excess f (m / 10)))
        (excess_enough f (m / 10) (omega (arith, not_ltb→le m limit long))))
]

scaled : (t q : ℕ) → 10 ^ 27 ≤ q → 10 ≤ t → limit ≤ q * t
scaled t q h k = grind arith

-- A quotient by a power of ten that has 28 digits, multiplied back, has at least 29.
full_quotient : (m k q : ℕ) → 10 ^ 27 * 10 ^ suc k ≤ m → m / 10 ^ suc k ≤ q → limit ≤ q * 10 ^ suc k
full_quotient m k q h g =
    let p : 0 < 10 ^ k = one-le-pow k 10 (omega arith) in
    let p' : 0 < 10 ^ suc k = one-le-pow (suc k) 10 (omega arith) in
    let full : 10 ^ 27 ≤ m / 10 ^ suc k = (le-div_iff_mul-le p').1 h in
    let ten : 10 ≤ 10 ^ suc k = omega (arith, pow-suc 10 k) in
    scaled (10 ^ suc k) q (omega arith) ten

pub round_digits_large : (m : ℕ) → limit ≤ m → limit ≤ round_digits m
unfolding round_digits
round_digits_large zero h = absurd (omega arith)
round_digits_large (suc p) h =
    let e : excess (suc p) (suc p) ≡ suc (excess p (suc p / 10)) = excess-suc p (suc p) h in
    let k = excess p (suc p / 10) in
    let long : ltb (suc p) limit ≡ false = ground arith in
    rw (long, e)
      (full_quotient (suc p) k (half_even (suc p) (10 ^ suc k)) (excess_bound (suc p) (suc p) k e)
        (div-le-half_even (suc p) (10 ^ suc k)))

-- A coefficient whose rounding has at most 28 digits was not rounded.
pub round_digits-lt-limit : (m : ℕ) → round_digits m < limit → round_digits m ≡ m
round_digits-lt-limit m h = elim (Bool-cases (ltb m limit)) [
  | inl short ↦ round_digits_exact m (ltb→lt m limit short)
  | inr long ↦ absurd (omega (arith, not_ltb→le m limit long, round_digits_large m))
]

-- An amount of `c` cents.
abbrev pub of_cents : ℤ → Decimal
of_cents c = record { coefficient = c; scale = 2 }

-- A rounded amount in cents that `quantize` accepts was not changed by the rounding.
pub quantize-fix : (c r : ℤ) → quantize 2 (fix c 2) ≡ ok r → (r ≡ c) × (fix c 2 ≡ of_cents c)
unfolding quantize fix rescale
quantize-fix (pos n) r h = ground (arith, round_digits-lt-limit n)
quantize-fix (negsuc n) r h = negative (round_digits (suc n)) (round_digits-lt-limit (suc n)) h
  where
    negative :
        (m : ℕ)
        → (m < limit → m ≡ suc n)
        → (if ltb (magnitude (neg_of m)) limit then ok (neg_of m) else err arithmetic_error) ≡ ok r
        → (r ≡ negsuc n)
          × (◌≡◌ {A = Decimal} (record { coefficient = neg_of m; scale = 2 }) (of_cents (negsuc n)))
    negative zero same e = absurd (omega (arith, same (omega arith)))
    negative (suc m) same e = ground (arith, same)

pub quantize-of_cents : (c r : ℤ) → quantize 2 (of_cents c) ≡ ok r → (r ≡ c) × (magnitude r < limit)
unfolding quantize rescale
quantize-of_cents c r h = ground arith

-- The same for a sum and a difference of two amounts in cents.
pub quantize-add :
    (a b r : ℤ)
    → quantize 2 (add (of_cents a) (of_cents b)) ≡ ok r
    → (r ≡ a +ℤ b) × (add (of_cents a) (of_cents b) ≡ of_cents (a +ℤ b))
unfolding add rescale
quantize-add a b r h = quantize-fix (a +ℤ b) r h

pub quantize-sub :
    (a b r : ℤ)
    → quantize 2 (sub (of_cents a) (of_cents b)) ≡ ok r
    → (r ≡ a -ℤ b) × (sub (of_cents a) (of_cents b) ≡ of_cents (a -ℤ b))
unfolding sub rescale
quantize-sub a b r h = quantize-fix (a -ℤ b) r h

-- A sum in cents below the limit is exact.
pub add_exact :
    (a b : ℤ) → magnitude (a +ℤ b) < limit → add (of_cents a) (of_cents b) ≡ of_cents (a +ℤ b)
unfolding add fix rescale
add_exact a b h = rw (on_magnitude_exact (a +ℤ b) h)
  where
    on_magnitude_exact : (c : ℤ) → magnitude c < limit → on_magnitude round_digits c ≡ c
    on_magnitude_exact (pos n) k = rw (round_digits_exact n k)
    on_magnitude_exact (negsuc n) k = rw (round_digits_exact (suc n) k)
