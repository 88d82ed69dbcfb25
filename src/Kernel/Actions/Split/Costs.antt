-- ===== src/Kernel/Actions/Split/Costs.antt =====
-- The cost of a split position: what its new lots carry.
use mini_qmt.Common.{
  ℕ, ◌≡◌, refl, inl, inr, List, [], ◌∷◌, ◌==◌, ok, >>=-eq-ok, ok-injective, Bool-cases, All, sum_by,
  total_by,
}
use mini_qmt.Common.Int.{ℤ, pos, ◌+ℤ◌, ◌-ℤ◌, int_laws}
use mini_qmt.Trading.Fees.{money}
use mini_qmt.Trading.Fees.Exact.{money-add, money-sub}
use mini_qmt.Trading.State.{PositionLot, check_lot}
use mini_qmt.Kernel.Orders.Booking.Lots.{IsLot, check_lot-IsLot, lot_cost}
use mini_qmt.Kernel.Actions.Split.{
  Share, share_quantity, lot_quantity, part_cost, allocate, replace_lots,
}

pub valid_lot : (l : PositionLot) {r : PositionLot} → check_lot l ≡ ok r → IsLot r
valid_lot l {r} h = let (v, same) = check_lot-IsLot l h in rw same v

-- What is allocated after a lot is what was before and the lot's cost.
allocate-step :
    (total_cost allocated : ℤ) (quantity target : ℕ) {cost next : ℤ}
    → part_cost total_cost quantity target ≡ ok cost
    → allocate target allocated cost ≡ ok next
    → next ≡ allocated +ℤ cost
allocate-step total_cost allocated quantity target {cost} {next} h k =
    elim (Bool-cases (target == 0)) [
      | inl empty ↦
          let free : pos 0 ≡ cost = ok-injective (rw empty at h) in
          let same : allocated ≡ next = ok-injective (rw empty at k) in
          rw (← free, ← same) (omega int_laws)
      | inr some_shares ↦ money-add allocated cost (rw some_shares at k)
    ]

-- The new lots of a split: their cost, their shares, their validity.
pub record Replaced (cost : ℤ) (shares : List Share) (lots : List PositionLot) : Type 0 where
  pub costs : total_by lot_cost lots ≡ cost
  pub quantities : sum_by lot_quantity lots ≡ sum_by share_quantity shares
  pub valid : All IsLot lots

module _ (total_cost : ℤ) (target : ℕ) where
  last_lot :
      (allocated cost : ℤ) (s : Share) (lot : PositionLot)
      → cost ≡ total_cost -ℤ allocated
      → lot ≡ record s.lot { quantity = s.quantity; cost_amount = cost }
      → IsLot lot
      → Replaced (total_cost -ℤ allocated) (s ∷ []) (lot ∷ [])
  last_lot allocated cost s lot e same v = record {
    costs = rw (same, e) (omega int_laws);
    quantities = rw same refl;
    valid = (v, tt);
  }

  first_lot :
      (allocated next cost : ℤ) (s : Share) (shares : List Share) (lot : PositionLot)
      (lots : List PositionLot)
      → next ≡ allocated +ℤ cost
      → lot ≡ record s.lot { quantity = s.quantity; cost_amount = cost }
      → IsLot lot
      → Replaced (total_cost -ℤ next) shares lots
      → Replaced (total_cost -ℤ allocated) (s ∷ shares) (lot ∷ lots)
  first_lot allocated next cost s shares lot lots e same v r = record {
    costs = rw (r.costs, same, e) (omega int_laws);
    quantities = rw (r.quantities, same) refl;
    valid = (v, r.valid);
  }

  -- The new lots of a split that leaves a share carry together exactly the cost that was not yet
  -- allocated, whatever the rounding of each; they hold the distributed shares and are valid.
  pub replace_lots-Replaced :
      (allocated : ℤ) (s : Share) (shares : List Share) {lots : List PositionLot}
      → replace_lots total_cost target allocated (s ∷ shares) ≡ ok lots
      → Replaced (total_cost -ℤ allocated) (s ∷ shares) lots
  unfolding replace_lots
  replace_lots-Replaced allocated s [] h =
      let (cost, c, h1) = >>=-eq-ok (money _) _ h in
      let (lot, l, done) = >>=-eq-ok (check_lot _) _ h1 in
      let (_, same) = check_lot-IsLot _ l in
      rw (← ok-injective done)
        (last_lot allocated cost s lot (money-sub total_cost allocated c) same (valid_lot _ l))
  replace_lots-Replaced allocated s (s' ∷ shares) h =
      let (cost, c, h1) = >>=-eq-ok (part_cost total_cost s.quantity target) _ h in
      let (next, a, h2) = >>=-eq-ok (allocate target allocated cost) _ h1 in
      let (lot, l, h3) = >>=-eq-ok (check_lot _) _ h2 in
      let (lots, rest, done) = >>=-eq-ok (replace_lots total_cost target next (s' ∷ shares)) _ h3 in
      let (_, same) = check_lot-IsLot _ l in
      rw (← ok-injective done) (
        first_lot allocated next cost s (s' ∷ shares) lot lots
          (allocate-step total_cost allocated s.quantity target c a) same (valid_lot _ l)
          (replace_lots-Replaced next s' shares rest))
