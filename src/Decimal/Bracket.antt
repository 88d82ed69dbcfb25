-- ===== src/Decimal/Bracket.antt =====
-- How close a quotient is that the context rounds to 28 digits and `quantize` to some places: it lies
-- between the whole units that the exact value lies between.
use mini_qmt.Common.{
  ℕ, zero, suc, ◌+◌, ◌-◌, ◌*◌, ◌/◌, ◌^◌, ◌≤◌, ◌<◌, ◌≡◌, refl, arith, true, false, leb, ltb, lt→ltb,
  not_ltb→le, max, Bool-cases, inl, inr,
}
use mathlib.Core.Path.{subst}
use mini_qmt.Common.Int.{pos, ltb_ℤ}
use mini_qmt.Decimal.{Decimal, quotient, at_places, lt}
use mini_qmt.Decimal.Digits.{limit, half_even, half_up, expansion}
use mini_qmt.Decimal.Exact.{div-le-half_even}
use mini_qmt.Decimal.Ratio.{pow-add, half_even-le, half_up-le, rescale_pos}
use native.Mathlib.Nat.{
  pow-suc, one-le-pow, mul-le-mul_right, le_of_mul-le-mul_right, le-div_iff_mul-le,
}

le-half_even : (n d k : ℕ) → 0 < d → k * d ≤ n → k ≤ half_even n d
le-half_even n d k h le =
    let below : k ≤ n / d = (le-div_iff_mul-le h).1 le in omega (arith, div-le-half_even n d)

le-half_up : (n d k : ℕ) → 0 < d → k * d ≤ n → k ≤ half_up n d
unfolding half_up
le-half_up n d k h le = (le-div_iff_mul-le (omega (arith, h))).1 (grind arith)

below : (a b c : ℕ) → 1 ≤ b → a * b < c → a < c
below a b c h k = grind arith

-- A quotient takes as many places as its digits allow.
expansion_enough : (w f num den : ℕ) → num * 10 ^ w < limit * den → w ≤ f → w ≤ expansion f num den
unfolding expansion
expansion_enough zero f num den h le = omega arith
expansion_enough (suc w) zero num den h le = absurd (omega arith)
expansion_enough (suc w) (suc f) num den h le =
    let one : 1 ≤ 10 ^ w = one-le-pow w 10 (omega arith) in
    let moved : num * 10 ^ suc w ≡ num * 10 * 10 ^ w = rw (pow-suc 10 w) (grind arith) in
    let next : num * 10 * 10 ^ w < limit * den = rw moved at h in
    let small : num * 10 < limit * den = below (num * 10) (10 ^ w) (limit * den) one next in
    let rest = expansion_enough w f (num * 10) den next (omega arith) in
    rw (lt→ltb (num * 10) (limit * den) small) (omega (arith, rest))

-- The value `part / 10 ^ scale` in units of `1 / 10 ^ w` is `k` at least, or at most.
abbrev pub AtLeast : ℕ → ℕ → ℕ → ℕ → Type 0
AtLeast w k part scale = k * 10 ^ scale ≤ part * 10 ^ w

abbrev pub AtMost : ℕ → ℕ → ℕ → ℕ → Type 0
AtMost w k part scale = part * 10 ^ w ≤ k * 10 ^ scale

not_le : (a b : ℕ) → b < a → leb a b ≡ false
not_le a b h = ground arith

scaled_least :
    (w m k num den : ℕ)
    → 0 < den
    → k * den ≤ num * 10 ^ w
    → AtLeast w k (half_even (num * 10 ^ (m + w)) den) (m + w)
scaled_least w m k num den h le =
    let up : k * den * 10 ^ m ≤ num * 10 ^ w * 10 ^ m = mul-le-mul_right (10 ^ m) le in
    let bound : k * 10 ^ m * den ≤ num * 10 ^ (m + w) =
      rw (pow-add 10 m w) (turn_least k den num (10 ^ m) (10 ^ w) up) in
    let q = le-half_even (num * 10 ^ (m + w)) den (k * 10 ^ m) h bound in
    let wide = mul-le-mul_right (10 ^ w) q in
    rw (pow-add 10 m w)
      (rw (pow-add 10 m w) at (turn k (10 ^ m) (10 ^ w) (half_even (num * 10 ^ (m + w)) den) wide))
  where
    turn_least : (k den num x y : ℕ) → k * den * x ≤ num * y * x → k * x * den ≤ num * (x * y)
    turn_least k den num x y h = grind arith

    turn : (k x y q : ℕ) → k * x * y ≤ q * y → k * (x * y) ≤ q * y
    turn k x y q h = grind arith

scaled_most :
    (w m k num den : ℕ)
    → 0 < den
    → num * 10 ^ w ≤ k * den
    → AtMost w k (half_even (num * 10 ^ (m + w)) den) (m + w)
scaled_most w m k num den h le =
    let up : num * 10 ^ w * 10 ^ m ≤ k * den * 10 ^ m = mul-le-mul_right (10 ^ m) le in
    let bound : num * 10 ^ (m + w) ≤ k * 10 ^ m * den =
      rw (pow-add 10 m w) (turn_most k den num (10 ^ m) (10 ^ w) up) in
    let q = half_even-le (num * 10 ^ (m + w)) den (k * 10 ^ m) h bound in
    let wide = mul-le-mul_right (10 ^ w) q in
    rw (pow-add 10 m w)
      (rw (pow-add 10 m w) at (turn k (10 ^ m) (10 ^ w) (half_even (num * 10 ^ (m + w)) den) wide))
  where
    turn_most : (k den num x y : ℕ) → num * y * x ≤ k * den * x → num * (x * y) ≤ k * x * den
    turn_most k den num x y h = grind arith

    turn : (k x y q : ℕ) → q * y ≤ k * x * y → q * y ≤ k * (x * y)
    turn k x y q h = grind arith

-- A coefficient and its scale between the bounds of an exact quotient.
pub record Brackets (w num den : ℕ) (d : Decimal) : Type 0 where
  pub part : ℕ
  pub value : d.coefficient ≡ pos part
  pub least : (k : ℕ) → k * den ≤ num * 10 ^ w → AtLeast w k part d.scale
  pub most : (k : ℕ) → num * 10 ^ w ≤ k * den → AtMost w k part d.scale

pub quotient-Brackets :
    (w num den : ℕ)
    → 0 < den
    → num * 10 ^ w < limit * den
    → w ≤ 28
    → Brackets w num den (quotient num den)
unfolding quotient
quotient-Brackets w num den h short few =
    let places = expansion (28 + den) num den in
    let m = places - w in
    let fits : w ≤ places = expansion_enough w (28 + den) num den short (omega arith) in
    let whole : m + w ≡ places = omega arith in
    let q = half_even (num * 10 ^ places) den in
    let small : leb (limit * den) num ≡ false =
      not_le (limit * den) num
        (below num (10 ^ w) (limit * den) (one-le-pow w 10 (omega arith)) short) in
    rw small (record {
      part = q;
      value = refl;
      least = λ k le.
          subst (λ x. AtLeast w k (half_even (num * 10 ^ x) den) x) whole
            (scaled_least w m k num den h le);
      most = λ k le.
          subst (λ x. AtMost w k (half_even (num * 10 ^ x) den) x) whole
            (scaled_most w m k num den h le);
    })

-- What `quantize` makes of a value lies between the whole units that the value lies between.
pub at_places-brackets :
    (w p : ℕ) (d : Decimal)
    → d.coefficient ≡ pos p
    → (r : ℕ) × (at_places w d ≡ pos r)
      × ((k : ℕ) → AtLeast w k p d.scale → k ≤ r)
      × ((k : ℕ) → AtMost w k p d.scale → r ≤ k)
unfolding at_places
at_places-brackets w p d value = elim (Bool-cases (leb d.scale w)) [
  | inl fits ↦
      let more = w - d.scale in
      let whole : more + d.scale ≡ w = ground arith in
      let some_unit = one-le-pow d.scale 10 (omega arith) in
      (
        p * 10 ^ more,
        rw (fits, value) (rescale_pos more p),
        λ k le.
            le_of_mul-le-mul_right {m = k} {n = p * 10 ^ more} {k = 10 ^ d.scale}
              (least p k (10 ^ more) (10 ^ d.scale) (10 ^ w)
                (rw (← pow-add 10 more d.scale, whole) refl) le)
              some_unit,
        λ k le.
            le_of_mul-le-mul_right {m = p * 10 ^ more} {n = k} {k = 10 ^ d.scale}
              (most p k (10 ^ more) (10 ^ d.scale) (10 ^ w)
                (rw (← pow-add 10 more d.scale, whole) refl) le)
              some_unit,
      )
  | inr finer ↦
      let fewer = d.scale - w in
      let whole : fewer + w ≡ d.scale = ground arith in
      let some_unit = one-le-pow fewer 10 (omega arith) in
      let whole_unit = one-le-pow w 10 (omega arith) in
      let scale : 10 ^ fewer * 10 ^ w ≡ 10 ^ d.scale = rw (← pow-add 10 fewer w, whole) refl in
      (
        half_up p (10 ^ fewer),
        rw (finer, value) refl,
        λ k le. le-half_up p (10 ^ fewer) k some_unit (
            le_of_mul-le-mul_right {m = k * 10 ^ fewer} {n = p} {k = 10 ^ w}
              (finer_least p k (10 ^ fewer) (10 ^ w) (10 ^ d.scale) scale le) whole_unit),
        λ k le. half_up-le p (10 ^ fewer) k some_unit (
            le_of_mul-le-mul_right {m = p} {n = k * 10 ^ fewer} {k = 10 ^ w}
              (finer_most p k (10 ^ fewer) (10 ^ w) (10 ^ d.scale) scale le) whole_unit),
      )
]
  where
    least : (p k x y z : ℕ) → x * y ≡ z → k * y ≤ p * z → k * y ≤ p * x * y
    least p k x y z e h = let h' : k * y ≤ p * (x * y) = rw e h in grind arith

    most : (p k x y z : ℕ) → x * y ≡ z → p * z ≤ k * y → p * x * y ≤ k * y
    most p k x y z e h = let h' : p * (x * y) ≤ k * y = rw e h in grind arith

    finer_least : (p k x y z : ℕ) → x * y ≡ z → k * z ≤ p * y → k * x * y ≤ p * y
    finer_least p k x y z e h = let h' : k * (x * y) ≤ p * y = rw e h in grind arith

    finer_most : (p k x y z : ℕ) → x * y ≡ z → p * y ≤ k * z → p * y ≤ k * x * y
    finer_most p k x y z e h = let h' : p * y ≤ k * (x * y) = rw e h in grind arith

ltb_pos : (a b : ℕ) → ltb_ℤ (pos a) (pos b) ≡ ltb a b
ltb_pos a b = ground arith

-- The comparison of two values that are not negative.
lt-parts :
    (a b : Decimal) (p q : ℕ)
    → a.coefficient ≡ pos p
    → b.coefficient ≡ pos q
    → lt a b
      ≡ ltb (p * 10 ^ (max a.scale b.scale - a.scale)) (q * 10 ^ (max a.scale b.scale - b.scale))
unfolding lt
lt-parts a b p q e f =
    rw
      (
        e,
        f,
        rescale_pos (max a.scale b.scale - a.scale) p,
        rescale_pos (max a.scale b.scale - b.scale) q,
      )
      (ltb_pos (p * 10 ^ (max a.scale b.scale - a.scale))
        (q * 10 ^ (max a.scale b.scale - b.scale)))

pub lt_asym :
    (a b : Decimal) (p q : ℕ)
    → a.coefficient ≡ pos p
    → b.coefficient ≡ pos q
    → lt a b ≡ true
    → lt b a ≡ false
lt_asym a b p q e f less =
    let same : max b.scale a.scale ≡ max a.scale b.scale = omega arith in
    rw (lt-parts b a q p f e, same)
      (asym (p * 10 ^ (max a.scale b.scale - a.scale)) (q * 10 ^ (max a.scale b.scale - b.scale))
        (rw (lt-parts a b p q e f) at less))
  where
    asym : (x y : ℕ) → ltb x y ≡ true → ltb y x ≡ false
    asym x y h = ground arith

-- A value reaches what a lesser one reaches.
pub reaches_more :
    (w k : ℕ) (a b : Decimal) (p q : ℕ)
    → a.coefficient ≡ pos p
    → b.coefficient ≡ pos q
    → lt b a ≡ false
    → AtLeast w k p a.scale
    → AtLeast w k q b.scale
reaches_more w k a b p q e f not_less h =
    let more_a = max b.scale a.scale - a.scale in
    let more_b = max b.scale a.scale - b.scale in
    let order =
      not_ltb→le (q * 10 ^ more_b) (p * 10 ^ more_a) (rw (lt-parts b a q p f e) at not_less) in
    let same : more_a + a.scale ≡ more_b + b.scale = omega arith in
    let powers : 10 ^ more_a * 10 ^ a.scale ≡ 10 ^ more_b * 10 ^ b.scale =
      rw (← pow-add 10 more_a a.scale, ← pow-add 10 more_b b.scale, same) refl in
    le_of_mul-le-mul_right {m = k * 10 ^ b.scale} {n = q * 10 ^ w} {k = 10 ^ more_b}
      (chain (10 ^ more_a) (10 ^ a.scale) (10 ^ more_b) (10 ^ b.scale) (10 ^ w) powers order h)
      (one-le-pow more_b 10 (omega arith))
  where
    chain : (u x v y z : ℕ) → u * x ≡ v * y → p * u ≤ q * v → k * x ≤ p * z → k * y * v ≤ q * z * v
    chain u x v y z e h l =
        let first : k * x * u ≤ p * z * u = mul-le-mul_right u l in
        let second : p * u * z ≤ q * v * z = mul-le-mul_right z h in
        let third : k * (u * x) ≤ q * v * z = grind arith in
        let fourth : k * (v * y) ≤ q * v * z = rw (← e) third in grind arith
