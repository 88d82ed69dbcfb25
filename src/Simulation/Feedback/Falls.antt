-- ===== src/Simulation/Feedback/Falls.antt =====
-- Falls between net values, for `_max_drawdown` of trading/reporting.py.
use mini_qmt.Common.{
  ℕ, ◌+◌, ◌-◌, ◌*◌, ◌≤◌, ◌<◌, ◌≡◌, ap, ◌∙◌, ◌⊎◌, inl, inr, arith, List, [], ◌∷◌, ◌^◌, leb, leb→le,
  Bool-cases, All, max,
}
use native.Mathlib.Nat.{le_of_mul-le-mul_right, mul-le-mul_right}

-- The net value `b` is below `a` by `k` units of 0.00000001 of `a` at least.
abbrev pub FallsTo : ℕ → ℕ → ℕ → Type 0
FallsTo k a b = (0 < a) × (k * a ≤ (a - b) * 10 ^ 8)

-- It is below by `k` units at most.
abbrev pub FallsWithin : ℕ → ℕ → ℕ → Type 0
FallsWithin k a b = (a - b) * 10 ^ 8 ≤ k * a

abbrev pub FallsToOne : ℕ → ℕ → List ℕ → Type 0
FallsToOne k a [] = ⊥
FallsToOne k a (b ∷ bs) = FallsTo k a b ⊎ FallsToOne k a bs

-- Some net value has a later one that is below it by `k` units at least.
abbrev pub SomeFall : ℕ → List ℕ → Type 0
SomeFall k [] = ⊥
SomeFall k (a ∷ bs) = FallsToOne k a bs ⊎ SomeFall k bs

-- No net value has a later one that is below it by more than `k` units.
abbrev pub NoFallOver : ℕ → List ℕ → Type 0
NoFallOver k [] = Unit
NoFallOver k (a ∷ bs) = All (λ b. FallsWithin k a b) bs × NoFallOver k bs

-- A higher peak falls as far at least.
FallsTo-mono : (k a c b : ℕ) → FallsTo k a b → a ≤ c → FallsTo k c b
FallsTo-mono k a c b (positive, falls) le = elim (Bool-cases (leb b a)) [
  | inl below ↦
      let part : k ≤ 10 ^ 8 =
        le_of_mul-le-mul_right {m = k} {n = 10 ^ 8} {k = a} (omega (arith, falls)) positive in
      let more : k * (c - a) ≤ 10 ^ 8 * (c - a) = mul-le-mul_right (c - a) part in
      let le' = leb→le b a below in
      let split : k * c ≡ k * a + k * (c - a) =
        ap (λ x. k * x) (rejoin a c le) ∙ distribute k a (c - a) in
      (omega arith, omega (arith, split, falls, more, le'))
  | inr above ↦
      let none_left : a - b ≡ 0 = ground arith in
      let zero_units : k ≤ 0 =
        le_of_mul-le-mul_right {m = k} {n = 0} {k = a} (omega (arith, falls, none_left)) positive in
      (omega arith, nothing k c zero_units)
]
  where
    rejoin : (a c : ℕ) → a ≤ c → c ≡ a + (c - a)
    rejoin a c h = omega arith

    distribute : (k a d : ℕ) → k * (a + d) ≡ k * a + k * d
    distribute k a d = grind arith

    nothing : (k c : ℕ) → k ≤ 0 → k * c ≤ (c - b) * 10 ^ 8
    nothing k c h = let e : k ≡ 0 = omega arith in rw e (omega arith)

FallsToOne-mono : (k a c : ℕ) (bs : List ℕ) → FallsToOne k a bs → a ≤ c → FallsToOne k c bs
FallsToOne-mono k a c [] h le = h
FallsToOne-mono k a c (b ∷ bs) (inl now) le = inl (FallsTo-mono k a c b now le)
FallsToOne-mono k a c (b ∷ bs) (inr later) le = inr (FallsToOne-mono k a c bs later le)

-- Raising the peak to the next net value loses no fall.
pub next_fall :
    (k peak nav : ℕ) (navs : List ℕ)
    → SomeFall k (peak ∷ nav ∷ navs)
    → FallsTo k (max peak nav) nav ⊎ SomeFall k (max peak nav ∷ navs)
next_fall k peak nav navs (inl (inl now)) =
    inl (FallsTo-mono k peak (max peak nav) nav now (omega arith))
next_fall k peak nav navs (inl (inr later)) =
    inr (inl (FallsToOne-mono k peak (max peak nav) navs later (omega arith)))
next_fall k peak nav navs (inr (inl later)) =
    inr (inl (FallsToOne-mono k nav (max peak nav) navs later (omega arith)))
next_fall k peak nav navs (inr (inr later)) = inr (inr later)

-- It makes no fall deeper.
pub next_within :
    (k peak nav : ℕ) (navs : List ℕ)
    → NoFallOver k (peak ∷ nav ∷ navs)
    → FallsWithin k (max peak nav) nav × NoFallOver k (max peak nav ∷ navs)
next_within k peak nav navs ((now, later), (after, rest)) = elim (Bool-cases (leb nav peak)) [
  | inl below ↦ let same : max peak nav ≡ peak = ground arith in rw same (now, (later, rest))
  | inr above ↦ let same : max peak nav ≡ nav = ground arith in rw same (omega arith, (after, rest))
]
