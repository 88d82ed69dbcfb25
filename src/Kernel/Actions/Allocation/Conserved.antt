-- ===== src/Kernel/Actions/Allocation/Conserved.antt =====
-- The cost that the held lots keep in a share distribution.
use mini_qmt.Common.{
  ℕ, zero, suc, ◌+◌, ◌<◌, ◌≡◌, refl, ap, ◌⊎◌, inl, inr, arith, Bool, true, false, List, [], ◌∷◌,
  ◌==◌, ok, >>=-eq-ok, ok-injective, Bool-cases, if◌then◌else◌, total_by, length, keep_if, map,
}
use mini_qmt.Common.Int.{ℤ, pos, ◌+ℤ◌, ◌-ℤ◌, int_laws, eqb_ℤ}
use mini_qmt.Decimal
use mini_qmt.Decimal.{Decimal}
use mini_qmt.Market.{Name}
use mini_qmt.Trading.Fees.{money}
use mini_qmt.Trading.Fees.Exact.{money-add, money-sub}
use mini_qmt.Trading.State.{PositionLot, check_lot, is_of}
use mini_qmt.Kernel.Orders.Booking.Lots.{check_lot-IsLot}
use mini_qmt.Kernel.Actions.Split.{lot_quantity}
use mini_qmt.Kernel.Actions.Allocation.{keep_cost, adjust_lots}

-- The cost of a lot of the instrument.
abbrev pub cost_in : Name → PositionLot → ℤ
cost_in id l = if is_of id l then l.cost_amount else pos 0

abbrev pub count_of : Name → List PositionLot → ℕ
count_of id lots = length (keep_if (is_of id) lots)

module _ (id : Name) (total_cost old_cost : ℤ) (count : ℕ) where
  keep_cost_lem :
      (last : Bool) (assigned : ℤ) (lot : PositionLot) {step : ℤ × ℤ}
      → keep_cost total_cost old_cost last assigned lot ≡ ok step
      → ((last ≡ true) × (step.0 ≡ old_cost -ℤ assigned))
        ⊎ ((last ≡ false) × (step.1 ≡ assigned +ℤ step.0))
  unfolding keep_cost
  keep_cost_lem true assigned lot {step} h =
      let (allocated, a, done) = >>=-eq-ok (money _) _ h in
      rw (← ok-injective done) (inl (refl, money-sub old_cost assigned a))
  keep_cost_lem false assigned lot {step} h = elim (Bool-cases (eqb_ℤ total_cost (pos 0))) [
    | inl free ↦ rw (← ok-injective (rw free at h)) (inr (refl, omega int_laws))
    | inr costly ↦
        let (part, _, h1) = >>=-eq-ok (Decimal.div _ _) _ (rw costly at h) in
        let (allocated, _, h2) = >>=-eq-ok (money part) _ h1 in
        let (next, n, done) = >>=-eq-ok (money _) _ h2 in
        rw (← ok-injective done) (inr (refl, money-add assigned allocated n))
  ]

  -- The lots after the loop hold what they held, and those of the instrument carry the given cost.
  pub record Adjusted (cost : ℤ) (lots after : List PositionLot) : Type 0 where
    pub costs : total_by (cost_in id) after ≡ cost
    pub quantities : map lot_quantity after ≡ map lot_quantity lots

  skip_lot :
      (cost : ℤ) (lot : PositionLot) (lots after : List PositionLot)
      → is_of id lot ≡ false
      → Adjusted cost lots after
      → Adjusted cost (lot ∷ lots) (lot ∷ after)
  skip_lot cost lot lots after e a = record {
    costs = rw (e, a.costs) (omega int_laws);
    quantities = ap (λ qs. lot.quantity ∷ qs) a.quantities;
  }

  adjust_lot :
      (kept cost : ℤ) (lot adjusted : PositionLot) (lots after : List PositionLot)
      → is_of id lot ≡ true
      → adjusted ≡ record lot { cost_amount = kept }
      → Adjusted cost lots after
      → Adjusted (kept +ℤ cost) (lot ∷ lots) (adjusted ∷ after)
  adjust_lot kept cost lot adjusted lots after e same a = record {
    costs = rw (same, e, a.costs) refl;
    quantities = rw same (ap (λ qs. lot.quantity ∷ qs) a.quantities);
  }

  -- What the instrument's lots from here on must carry: nothing if there are none.
  abbrev rest_cost : ℕ → ℤ → ℤ
  rest_cost zero assigned = pos 0
  rest_cost (suc n) assigned = old_cost -ℤ assigned

  close_costs :
      (n : ℕ) (assigned next kept : ℤ) (last : Bool)
      → last ≡ (n == 0)
      → ((last ≡ true) × (kept ≡ old_cost -ℤ assigned))
        ⊎ ((last ≡ false) × (next ≡ assigned +ℤ kept))
      → kept +ℤ rest_cost n next ≡ old_cost -ℤ assigned
  close_costs zero assigned next kept last e (inl (_, k)) = rw k (omega int_laws)
  close_costs zero assigned next kept last e (inr (f, _)) = absurd (ground arith)
  close_costs (suc n) assigned next kept last e (inl (f, _)) = absurd (ground arith)
  close_costs (suc n) assigned next kept last e (inr (_, k)) = rw k (omega int_laws)

  adjust_lots-rest :
      (seen : ℕ) (assigned : ℤ) (lots : List PositionLot) {after : List PositionLot}
      → seen + count_of id lots ≡ count
      → adjust_lots id total_cost old_cost count seen assigned lots ≡ ok after
      → Adjusted (rest_cost (count_of id lots) assigned) lots after
  unfolding adjust_lots
  adjust_lots-rest seen assigned [] {after} all h =
      rw (← ok-injective h) (record { costs = refl; quantities = refl })
  adjust_lots-rest seen assigned (lot ∷ lots) {after} all h = elim (Bool-cases (is_of id lot)) [
    | inl ours ↦
        let (step, k, h1) =
          >>=-eq-ok (keep_cost total_cost old_cost (suc seen == count) assigned lot) _
            (rw (ours, adjust_lots) at h) in
        let (adjusted, c, h2) = >>=-eq-ok (check_lot _) _ h1 in
        let (rest, r, done) =
          >>=-eq-ok (adjust_lots id total_cost old_cost count (suc seen) step.1 lots) _ h2 in
        let (_, same) = check_lot-IsLot _ c in
        let all' : suc seen + count_of id lots ≡ count = counted (rw ours at all) in
        let later = adjust_lots-rest (suc seen) step.1 lots all' r in
        let sums =
          close_costs (count_of id lots) assigned step.1 step.0 (suc seen == count)
            (last_is (count_of id lots) all') (keep_cost_lem (suc seen == count) assigned lot k) in
        rw (← ok-injective done, ours, ← sums)
          (adjust_lot step.0 _ lot adjusted lots rest ours same later)
    | inr other ↦
        let (rest, r, done) =
          >>=-eq-ok (adjust_lots id total_cost old_cost count seen assigned lots) _
            (rw (other, adjust_lots) at h) in
        rw (← ok-injective done, other)
          (skip_lot _ lot lots rest other (adjust_lots-rest seen assigned lots (rw other at all) r))
  ]
    where
      counted : seen + suc (count_of id lots) ≡ count → suc seen + count_of id lots ≡ count
      counted e = omega arith

      last_is : (n : ℕ) → suc seen + n ≡ count → (suc seen == count) ≡ (n == 0)
      last_is n e = ground arith

-- The loop over the lots: together the lots of the instrument keep exactly the old cost, whatever
-- the rounding of each, and no lot gains or loses a share.
pub adjust_lots-Adjusted :
    (id : Name) (total_cost old_cost : ℤ) (lots : List PositionLot) {after : List PositionLot}
    → 0 < count_of id lots
    → adjust_lots id total_cost old_cost (count_of id lots) 0 (pos 0) lots ≡ ok after
    → Adjusted id total_cost old_cost (count_of id lots) old_cost lots after
adjust_lots-Adjusted id total_cost old_cost lots {after} some_lots h =
    go (count_of id lots) some_lots
      (adjust_lots-rest id total_cost old_cost (count_of id lots) 0 (pos 0) lots (omega arith) h)
  where
    zero_less : (a : ℤ) → a -ℤ pos 0 ≡ a
    zero_less a = omega int_laws

    go :
        (n : ℕ)
        → 0 < n
        → Adjusted id total_cost old_cost
            (count_of id lots)
            (rest_cost id total_cost old_cost (count_of id lots) n (pos 0))
            lots
            after
        → Adjusted id total_cost old_cost (count_of id lots) old_cost lots after
    go zero h a = absurd (omega arith)
    go (suc n) h a = rw zero_less at a
