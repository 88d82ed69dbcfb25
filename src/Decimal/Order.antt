-- ===== src/Decimal/Order.antt =====
-- Comparisons of decimals.
use mini_qmt.Common.{◌-◌, ◌≡◌, max, arith, true, false}
use mini_qmt.Common.Int.{ℤ, ltb_ℤ, leb_ℤ}
use mini_qmt.Decimal.{Decimal, lt, le, minimum, maximum, rescale}

leb_of_not_ltb : (a b : ℤ) → ltb_ℤ b a ≡ false → leb_ℤ a b ≡ true
leb_of_not_ltb a b h = ground arith

leb_refl : (a : ℤ) → leb_ℤ a a ≡ true
leb_refl a = ground arith

leb_of_ltb : (a b : ℤ) → ltb_ℤ a b ≡ true → leb_ℤ a b ≡ true
leb_of_ltb a b h = ground arith

pub le_of_not_lt : (a b : Decimal) → lt b a ≡ false → le a b ≡ true
unfolding lt le
le_of_not_lt a b h =
    let same : max b.scale a.scale ≡ max a.scale b.scale = omega arith in
    leb_of_not_ltb (rescale (max a.scale b.scale - a.scale) a.coefficient)
      (rescale (max a.scale b.scale - b.scale) b.coefficient) (rw same at h)

pub le_self : (a : Decimal) → le a a ≡ true
unfolding le
le_self a = leb_refl (rescale (max a.scale a.scale - a.scale) a.coefficient)

pub le_of_lt : (a b : Decimal) → lt a b ≡ true → le a b ≡ true
unfolding lt le
le_of_lt a b h =
    leb_of_ltb (rescale (max a.scale b.scale - a.scale) a.coefficient)
      (rescale (max a.scale b.scale - b.scale) b.coefficient) h

pub minimum-le_right : (a b : Decimal) → le (minimum a b) b ≡ true
unfolding minimum
minimum-le_right a b = ground (arith, le_self b, le_of_not_lt a b)

pub maximum-le_right : (a b : Decimal) → le b (maximum a b) ≡ true
unfolding maximum
maximum-le_right a b = ground (arith, le_self b, le_of_not_lt b a)
