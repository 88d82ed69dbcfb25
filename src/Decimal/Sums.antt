-- ===== src/Decimal/Sums.antt =====
-- Signs of results, and sums of amounts that are not negative: rounding cannot hide in a sum that
-- `quantize` accepts.
use mini_qmt.Common.{
  ℕ, zero, suc, ◌+◌, ◌-◌, ◌*◌, ◌^◌, ◌≤◌, ◌≡◌, refl, ◌⊎◌, inl, inr, arith, ltb, leb, ok, Bool-cases,
  ltb→lt, not_ltb→le,
}
use mini_qmt.Common.Int.{ℤ, pos, negsuc, magnitude, ◌+ℤ◌, ◌*ℤ◌, ◌≤ℤ◌, int_laws, on_magnitude}
use mini_qmt.Decimal.{Decimal, rescale, fix, add, mul, div, quotient, quantize, at_places}
use mini_qmt.Decimal.Digits.{limit, round_digits, half_up}
use mini_qmt.Decimal.Exact.{of_cents, round_digits_exact, round_digits_large}

abbrev pub IsNonneg : Decimal → Type 0
IsNonneg d = pos 0 ≤ℤ d.coefficient

nonneg-rescale : (k : ℕ) (c : ℤ) → pos 0 ≤ℤ c → pos 0 ≤ℤ rescale k c
unfolding rescale
nonneg-rescale zero c h = h
nonneg-rescale (suc k) c h = nonneg-rescale k (c *ℤ pos 10) (unfold ◌*ℤ◌ in ground arith)

pub fix-IsNonneg : (c : ℤ) (s : ℕ) → pos 0 ≤ℤ c → IsNonneg (fix c s)
unfolding fix
fix-IsNonneg (pos n) s h = omega arith
fix-IsNonneg (negsuc n) s h = absurd (omega arith)

pub mul-IsNonneg : (a b : Decimal) → IsNonneg a → IsNonneg b → IsNonneg (mul a b)
unfolding mul
mul-IsNonneg a b h k =
    fix-IsNonneg (a.coefficient *ℤ b.coefficient) (a.scale + b.scale)
      (nonneg-* a.coefficient b.coefficient h k)
  where
    nonneg-* : (x y : ℤ) → pos 0 ≤ℤ x → pos 0 ≤ℤ y → pos 0 ≤ℤ x *ℤ y
    nonneg-* (pos x) (pos y) h k = unfold ◌*ℤ◌ in ground arith
    nonneg-* (negsuc x) y h k = absurd (omega arith)
    nonneg-* (pos x) (negsuc y) h k = absurd (omega arith)

quotient-IsNonneg : (n d : ℕ) → IsNonneg (quotient n d)
unfolding quotient
quotient-IsNonneg n d = ground arith

pub div-IsNonneg :
    (a b : Decimal) {r : Decimal} → IsNonneg a → IsNonneg b → div a b ≡ ok r → IsNonneg r
unfolding div
div-IsNonneg a b {r} h k e = ground (
  arith,
  quotient-IsNonneg (magnitude a.coefficient * 10 ^ b.scale)
      (magnitude b.coefficient * 10 ^ a.scale),
)

nonneg-on_magnitude : (f : ℕ → ℕ) (c : ℤ) → pos 0 ≤ℤ c → pos 0 ≤ℤ on_magnitude f c
nonneg-on_magnitude f (pos n) h = omega arith
nonneg-on_magnitude f (negsuc n) h = absurd (omega arith)

nonneg-at_places : (k : ℕ) (a : Decimal) → IsNonneg a → pos 0 ≤ℤ at_places k a
unfolding at_places
nonneg-at_places k a h = elim (Bool-cases (leb a.scale k)) [
  | inl fits ↦ rw fits (nonneg-rescale (k - a.scale) a.coefficient h)
  | inr finer ↦ rw finer (nonneg-on_magnitude (λ m. half_up m (10 ^ (a.scale - k))) a.coefficient h)
]

pub quantize_nonneg : (k : ℕ) (a : Decimal) {r : ℤ} → IsNonneg a → quantize k a ≡ ok r → pos 0 ≤ℤ r
unfolding quantize
quantize_nonneg k a {r} h e = ground (arith, nonneg-at_places k a h)

-- `d` is the sum of amounts that come to `z` cents, if that is short enough to be exact; if not, both are beyond the limit.
pub record Tracks (d : Decimal) (z : ℤ) : Type 0 where
  pub cents : ℕ
  pub is_cents : d ≡ of_cents (pos cents)
  pub faithful : (z ≡ pos cents) ⊎ ((limit ≤ cents) × (pos limit ≤ℤ z))

pub Tracks-of_cents : (z : ℤ) → pos 0 ≤ℤ z → Tracks (of_cents z) z
Tracks-of_cents (pos n) h = record { cents = n; is_cents = refl; faithful = inl refl }
Tracks-of_cents (negsuc n) h = absurd (omega arith)

pos_add : (m n : ℕ) → pos m +ℤ pos n ≡ pos (m + n)
pos_add m n = omega int_laws

add_cents :
    (m k : ℕ) → add (of_cents (pos m)) (of_cents (pos k)) ≡ of_cents (pos (round_digits (m + k)))
unfolding add rescale
add_cents m k = rw pos_add

-- A step of the sum keeps it faithful.
faithful-add :
    (m k : ℕ) (z : ℤ)
    → (z ≡ pos m) ⊎ ((limit ≤ m) × (pos limit ≤ℤ z))
    → (z +ℤ pos k ≡ pos (round_digits (m + k)))
      ⊎ ((limit ≤ round_digits (m + k)) × (pos limit ≤ℤ z +ℤ pos k))
faithful-add m k z (inl same) = elim (Bool-cases (ltb (m + k) limit)) [
  | inl short ↦
      inl (rw (same, round_digits_exact (m + k) (ltb→lt (m + k) limit short)) (pos_add m k))
  | inr long ↦ inr (
    round_digits_large (m + k) (not_ltb→le (m + k) limit long),
    rw (same, pos_add m k) (omega (arith, not_ltb→le (m + k) limit long)),
  )
]
faithful-add m k z (inr (large, beyond)) =
    inr (round_digits_large (m + k) (omega arith), omega int_laws)

pub Tracks-add :
    (d : Decimal) (z k : ℤ) → pos 0 ≤ℤ k → Tracks d z → Tracks (add d (of_cents k)) (z +ℤ k)
Tracks-add d z (negsuc k) h t = absurd (omega arith)
Tracks-add d z (pos k) h t = record {
  cents = round_digits (t.cents + k);
  is_cents = rw t.is_cents (add_cents t.cents k);
  faithful = faithful-add t.cents k z t.faithful;
}

-- A sum that `quantize` accepts is exact.
pub Tracks-quantize : (d : Decimal) (z : ℤ) {r : ℤ} → Tracks d z → quantize 2 d ≡ ok r → r ≡ z
unfolding quantize rescale
Tracks-quantize d z {r} t e = go t.cents t.faithful (rw t.is_cents at e)
  where
    go :
        (m : ℕ)
        → (z ≡ pos m) ⊎ ((limit ≤ m) × (pos limit ≤ℤ z))
        → quantize 2 (of_cents (pos m)) ≡ ok r
        → r ≡ z
    go m f q = ground arith
