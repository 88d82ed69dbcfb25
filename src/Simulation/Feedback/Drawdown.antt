-- ===== src/Simulation/Feedback/Drawdown.antt =====
-- The maximal drawdown of net values: `_max_drawdown` of trading/reporting.py against the falls between
-- any two of them.
use mini_qmt.Common.{
  ℕ, zero, suc, ◌-◌, ◌*◌, ◌≤◌, ◌<◌, ◌≡◌, refl, ap, arith, true, false, some, List, [], ◌∷◌, map,
  ◌^◌, ltb, ok, err, arithmetic_error, if◌then◌else◌, Bool-cases, inl, inr, All, max,
}
use mini_qmt.Common.Int.{pos, magnitude, ◌-ℤ◌, ◌*ℤ◌}
use mini_qmt.Decimal
use mini_qmt.Decimal.{Decimal, fix, sub, lt, maximum, rescale, div, quotient, quantize}
use mini_qmt.Decimal.Digits.{limit}
use mini_qmt.Decimal.Bracket.{
  AtLeast, AtMost, Brackets, quotient-Brackets, at_places-brackets, reaches_more, lt_asym,
}
use mini_qmt.Decimal.Exact.{round_digits_exact}
use mini_qmt.Decimal.Ratio.{IsRatio, quotient-IsRatio, positive_scaled}
use mini_qmt.Simulation.Feedback.Falls.{
  FallsTo, FallsWithin, SomeFall, NoFallOver, next_fall, next_within,
}
use mini_qmt.Simulation.Feedback.{units, deepen, drawdown_loop, max_drawdown}

-- Comparisons and differences of net values are those of their units.
lt-units : (a b : ℕ) → lt (units (pos a)) (units (pos b)) ≡ ltb a b
unfolding lt rescale
lt-units a b = ground arith

lt_max : (a b : ℕ) → ltb a b ≡ true → b ≡ max a b
lt_max a b h = ground arith

not_lt_max : (a b : ℕ) → ltb a b ≡ false → a ≡ max a b
not_lt_max a b h = ground arith

maximum-units : (a b : ℕ) → maximum (units (pos a)) (units (pos b)) ≡ units (pos (max a b))
unfolding maximum
maximum-units a b = elim (Bool-cases (ltb a b)) [
  | inl less ↦ rw (lt-units a b, less) (ap (λ n. units (pos n)) (lt_max a b less))
  | inr more ↦ rw (lt-units a b, more) (ap (λ n. units (pos n)) (not_lt_max a b more))
]

sub-units :
    (a b : ℕ) → b ≤ a → a < limit → sub (units (pos a)) (units (pos b)) ≡ units (pos (a - b))
unfolding sub fix rescale ◌-ℤ◌
sub-units a b h k = ground (arith, round_digits_exact (a - b))

no_peak : lt (Decimal.of_ℕ 0) (units (pos 0)) ≡ false
unfolding lt rescale ◌*ℤ◌
no_peak = refl

is_peak : (n : ℕ) → lt (Decimal.of_ℕ 0) (units (pos (suc n))) ≡ true
unfolding lt rescale ◌*ℤ◌
is_peak n = ground arith

abbrev Reaches : ℕ → Decimal → Type 0
Reaches k d = AtLeast 8 k (magnitude d.coefficient) d.scale

abbrev Within : ℕ → Decimal → Type 0
Within k d = AtMost 8 k (magnitude d.coefficient) d.scale

-- What a division of a fall by its peak comes to.
record IsFall (a b : ℕ) (q : Decimal) : Type 0 where
  ratio : IsRatio q
  reaches : (k : ℕ) → k * b ≤ a * 10 ^ 8 → Reaches k q
  within : (k : ℕ) → a * 10 ^ 8 ≤ k * b → Within k q

Brackets-Reaches :
    (k num den : ℕ) (d : Decimal) → Brackets 8 num den d → k * den ≤ num * 10 ^ 8 → Reaches k d
Brackets-Reaches k num den d b h = rw b.value (b.least k h)

Brackets-Within :
    (k num den : ℕ) (d : Decimal) → Brackets 8 num den d → num * 10 ^ 8 ≤ k * den → Within k d
Brackets-Within k num den d b h = rw b.value (b.most k h)

div-IsFall :
    (a b : ℕ)
    → 0 < b
    → a ≤ b
    → (q : Decimal) × (div (units (pos a)) (units (pos b)) ≡ ok q) × IsFall a b q
unfolding div
div-IsFall zero b h le = (
  Decimal.of_ℕ 0,
  ground arith,
  record {
    ratio = record { part = 0; value = refl; bound = omega arith };
    reaches = λ k l. nothing_reached k b h l;
    within = λ k l. omega arith;
  },
)
  where
    nothing_reached : (k b : ℕ) → 0 < b → k * b ≤ 0 * 10 ^ 8 → k * 10 ^ 0 ≤ 0 * 10 ^ 8
    nothing_reached k b h l = grind arith
div-IsFall (suc a) b h le = (
  quotient (suc a * 10 ^ 8) (b * 10 ^ 8),
  ground arith,
  of_brackets (quotient-IsRatio (suc a * 10 ^ 8) (b * 10 ^ 8) (positive_scaled b 8 h) (omega arith))
      (quotient-Brackets 8 (suc a * 10 ^ 8) (b * 10 ^ 8) (positive_scaled b 8 h) (omega arith)
        (omega arith)),
)
  where
    of_brackets :
        {q : Decimal} → IsRatio q → Brackets 8 (suc a * 10 ^ 8) (b * 10 ^ 8) q → IsFall (suc a) b q
    of_brackets {q} ratio w = record {
      ratio = ratio;
      reaches = λ k l. Brackets-Reaches k (suc a * 10 ^ 8) (b * 10 ^ 8) q w (up k l);
      within = λ k l. Brackets-Within k (suc a * 10 ^ 8) (b * 10 ^ 8) q w (down k l);
    }
      where
        up : (k : ℕ) → k * b ≤ suc a * 10 ^ 8 → k * (b * 10 ^ 8) ≤ suc a * 10 ^ 8 * 10 ^ 8
        up k l = grind arith

        down : (k : ℕ) → suc a * 10 ^ 8 ≤ k * b → suc a * 10 ^ 8 * 10 ^ 8 ≤ k * (b * 10 ^ 8)
        down k l = grind arith

-- The greater of the drawdown so far and a fall.
record IsDeeper (d : Decimal) (peak nav : ℕ) (q : Decimal) : Type 0 where
  ratio : IsRatio q
  kept : (k : ℕ) → Reaches k d → Reaches k q
  reaches : (k : ℕ) → FallsTo k peak nav → Reaches k q
  within : (k : ℕ) → Within k d → FallsWithin k peak nav → Within k q

Reaches-greater :
    (k : ℕ) (a b : Decimal) → IsRatio a → IsRatio b → lt b a ≡ false → Reaches k a → Reaches k b
Reaches-greater k a b h l less r =
    rw l.value (reaches_more 8 k a b h.part l.part h.value l.value less (rw h.value at r))

maximum-IsDeeper :
    (d fall : Decimal) (peak nav : ℕ)
    → IsRatio d
    → IsFall (peak - nav) peak fall
    → IsDeeper d peak nav (maximum d fall)
unfolding maximum
maximum-IsDeeper d fall peak nav h f = elim (Bool-cases (lt d fall)) [
  | inl less ↦ rw less (record {
    ratio = f.ratio;
    kept = λ k r.
        Reaches-greater k d fall h f.ratio
          (lt_asym d fall h.part f.ratio.part h.value f.ratio.value less) r;
    reaches = λ k (_, l). f.reaches k l;
    within = λ k _ l. f.within k l;
  })
  | inr more ↦ rw more (record {
    ratio = h;
    kept = λ k r. r;
    reaches = λ k (_, l). Reaches-greater k fall d f.ratio h more (f.reaches k l);
    within = λ k w _. w;
  })
]

-- One step, at a net value that is not above the peak.
deepen-IsDeeper :
    (d : Decimal) (peak nav : ℕ)
    → IsRatio d
    → nav ≤ peak
    → peak < limit
    → (q : Decimal) × (deepen d (units (pos peak)) (units (pos nav)) ≡ ok q) × IsDeeper d peak nav q
unfolding deepen
deepen-IsDeeper d zero nav h le small = (
  d,
  rw no_peak refl,
  record {
    ratio = h;
    kept = λ k r. r;
    reaches = λ k (positive, _). absurd (omega arith);
    within = λ k w _. w;
  },
)
deepen-IsDeeper d (suc peak) nav h le small =
    let (fall, divided, part) =
      div-IsFall (suc peak - nav) (suc peak) (omega arith) (omega arith) in
    (
      maximum d fall,
      rw (is_peak peak, sub-units (suc peak) nav le small, divided) refl,
      maximum-IsDeeper d fall (suc peak) nav h part,
    )

-- What the loop makes of the drawdown so far, a peak and the net values after it.
record IsDeepest (d : Decimal) (peak : ℕ) (navs : List ℕ) (q : Decimal) : Type 0 where
  ratio : IsRatio q
  kept : (k : ℕ) → Reaches k d → Reaches k q
  reaches : (k : ℕ) → SomeFall k (peak ∷ navs) → Reaches k q
  within : (k : ℕ) → Within k d → NoFallOver k (peak ∷ navs) → Within k q

loop-IsDeepest :
    (d : Decimal) (peak : ℕ) (navs : List ℕ)
    → IsRatio d
    → peak < limit
    → All (λ n. n < limit) navs
    → (q : Decimal) × (drawdown_loop (some (units (pos peak))) d (map (λ n. units (pos n)) navs)
        ≡ ok q)
      × IsDeepest d peak navs q
unfolding drawdown_loop
loop-IsDeepest d peak [] h small all_small = (
  d,
  refl,
  record { ratio = h; kept = λ k r. r; reaches = λ k r. no_fall k peak r; within = λ k w _. w },
)
  where
    no_fall : (k peak : ℕ) → SomeFall k (peak ∷ []) → Reaches k d
    no_fall k peak (inl none_after) = absurd none_after
    no_fall k peak (inr none_after) = absurd none_after
loop-IsDeepest d peak (nav ∷ navs) h small all_small =
    let top = max peak nav in
    let top_small : top < limit = omega (arith, all_small.0) in
    let (d', deeper, step) = deepen-IsDeeper d top nav h (omega arith) top_small in
    let (q, rest, loop) = loop-IsDeepest d' top navs step.ratio top_small all_small.1 in
    (
      q,
      rw (maximum-units peak nav, deeper) rest,
      record {
        ratio = loop.ratio;
        kept = λ k r. loop.kept k (step.kept k r);
        reaches = λ k r. elim (next_fall k peak nav navs r) [
          | inl now ↦ loop.kept k (step.reaches k now)
          | inr later ↦ loop.reaches k later
        ];
        within = λ k w n.
            let (now, later) = next_within k peak nav navs n in
            loop.within k (step.within k w now) later;
      },
    )

-- The rounded drawdown of net values.
pub record IsDrawdown (navs : List ℕ) (r : ℕ) : Type 0 where
  pub least : (k : ℕ) → SomeFall k navs → k ≤ r
  pub most : (k : ℕ) → NoFallOver k navs → r ≤ k
  pub bound : r ≤ 10 ^ 8

quantize-IsDrawdown :
    (navs : List ℕ) (q : Decimal)
    → IsRatio q
    → ((k : ℕ) → SomeFall k navs → Reaches k q)
    → ((k : ℕ) → NoFallOver k navs → Within k q)
    → (r : ℕ) × (quantize 8 q ≡ ok (pos r)) × IsDrawdown navs r
unfolding quantize
quantize-IsDrawdown navs q h reaches within =
    let (r, e, least, most) = at_places-brackets 8 h.part q h.value in
    let bound : r ≤ 10 ^ 8 = most (10 ^ 8) (whole (10 ^ q.scale) h.bound) in
    (
      r,
      rw e (short r bound),
      record {
        least = λ k f. least k (rw h.value at (reaches k f));
        most = λ k f. most k (rw h.value at (within k f));
        bound = bound;
      },
    )
  where
    whole : (u : ℕ) → h.part ≤ u → h.part * 10 ^ 8 ≤ 10 ^ 8 * u
    whole u l = omega arith

    short :
        (r : ℕ)
        → r ≤ 10 ^ 8
        → (if ltb (magnitude (pos r)) limit then ok (pos r) else err arithmetic_error) ≡ ok (pos r)
    short r l = ground arith

-- The maximal drawdown of net values that are not negative and have at most 28 digits is always found,
-- is at most 1, and is right to the unit of 0.00000001: it is at least `k` units if a net value has a
-- later one that is below it by `k` units of it at least, and at most `k` units if no net value has a
-- later one that is below it by more.
pub max_drawdown-IsDrawdown :
    (navs : List ℕ)
    → All (λ n. n < limit) navs
    → (r : ℕ) × (max_drawdown (map (λ n. units (pos n)) navs) ≡ ok (pos r)) × IsDrawdown navs r
unfolding max_drawdown drawdown_loop
max_drawdown-IsDrawdown [] h =
    quantize-IsDrawdown [] (Decimal.of_ℕ 0) (record { part = 0; value = refl; bound = omega arith })
      (λ k f. absurd f) (λ k _. omega arith)
max_drawdown-IsDrawdown (nav ∷ navs) h =
    let none_yet : IsRatio (Decimal.of_ℕ 0) = record {
      part = 0;
      value = refl;
      bound = omega arith;
    } in
    let (d, deeper, first) = deepen-IsDeeper (Decimal.of_ℕ 0) nav nav none_yet (omega arith) h.0 in
    let (q, rest, loop) = loop-IsDeepest d nav navs first.ratio h.0 h.1 in
    let (r, rounded, drawdown) =
      quantize-IsDrawdown (nav ∷ navs) q loop.ratio loop.reaches
        (λ k n. loop.within k (first.within k (omega arith) (no_fall k nav)) n) in
    (r, rw (deeper, rest, rounded) refl, drawdown)
  where
    no_fall : (k n : ℕ) → FallsWithin k n n
    no_fall k n = omega arith
