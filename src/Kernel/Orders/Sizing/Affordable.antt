-- ===== src/Kernel/Orders/Sizing/Affordable.antt =====
-- The binary search of `_affordable_buy_quantity`: the quantity that it returns is paid for by the
-- cash, and one step more is not.
use mini_qmt.Common.{
  ℕ, zero, suc, ◌+◌, ◌-◌, ◌/◌, ◌≤◌, ◌<◌, ◌≡◌, refl, ◌⊎◌, inl, inr, arith, Bool, true, false, Result,
  ok, ltb, ltb→lt, not_ltb→le, Bool-cases, >>=-eq-ok, ok-injective, sym, ap, if◌then◌else◌, ◌==◌,
}
use mini_qmt.Decimal.{Decimal}
use mini_qmt.Market.{Day, Instrument, DailyBar}
use mini_qmt.Trading.Fees.{FeeSchedule}
use mini_qmt.Trading.State.{ExecutionPolicy}
use mini_qmt.Kernel.Orders.Sizing.{search_slot, slot_quantity, affords, affordable_buy_quantity}
use mini_qmt.Trading.Quantity.Normal.{IsNormal}
use native.Mathlib.Nat.{div-mul-le_self, lt-div-mul-add, mul-le-mul_right}

module _ (test : ℕ → Result Bool) where
  -- The slot `r` between the bounds passes the test, unless it is the lower bound, and the next one
  -- fails it, unless `r` is the upper bound.
  pub record Found (low high r : ℕ) : Type 0 where
    pub above : low ≤ r
    pub below : r ≤ high
    pub passes : (r ≡ low) ⊎ (test r ≡ ok true)
    pub next_fails : (r ≡ high) ⊎ (test (r + 1) ≡ ok false)

  narrow_up :
      (low middle high r : ℕ)
      → low ≤ middle
      → test middle ≡ ok true
      → Found middle high r
      → Found low high r
  narrow_up low middle high r le yes_ f = record {
    above = omega (arith, f.above);
    below = f.below;
    passes = inr (elim f.passes [ inl same ↦ rw same yes_ | inr passed ↦ passed ]);
    next_fails = f.next_fails;
  }

  narrow_down :
      (low middle high r : ℕ)
      → 0 < middle
      → middle ≤ high
      → test middle ≡ ok false
      → Found low (middle - 1) r
      → Found low high r
  narrow_down low middle high r positive le no_ f = record {
    above = f.above;
    below = omega (arith, f.below);
    passes = f.passes;
    next_fails = inr (elim f.next_fails [
      | inl same ↦ let e : r + 1 ≡ middle = omega arith in rw e no_
      | inr failed ↦ failed
    ]);
  }

  -- With a round of fuel for each slot between the bounds the loop runs to its end.
  pub search_slot-Found :
      (fuel low high : ℕ) {r : ℕ}
      → low ≤ high
      → high ≤ low + fuel
      → search_slot fuel test low high ≡ ok r
      → Found low high r
  unfolding search_slot
  search_slot-Found zero low high {r} le enough h =
      let same : low ≡ r = ok-injective h in
      record {
        above = omega arith;
        below = omega arith;
        passes = inl (sym same);
        next_fails = inl (omega arith);
      }
  search_slot-Found (suc fuel) low high {r} le enough h =
      let middle = (low + high + 1) / 2 in
      elim (Bool-cases (ltb low high)) [
        | inl more ↦
            let room : low < high = ltb→lt low high more in
            let (fits, tested, rest) = >>=-eq-ok (test middle) _ (rw (more, search_slot) at h) in
            elim (Bool-cases fits) [
              | inl yes_ ↦
                  narrow_up low middle high r (omega arith) (rw yes_ at tested) (
                    search_slot-Found fuel middle high (omega arith) (omega arith)
                      (rw yes_ at rest))
              | inr no_ ↦
                  narrow_down low middle high r (omega arith) (omega arith) (rw no_ at tested) (
                    search_slot-Found fuel low (middle - 1) (omega arith) (omega arith)
                      (rw no_ at rest))
            ]
        | inr done ↦
            let same : low ≡ r = ok-injective (rw (done, search_slot) at h) in
            let met : high ≤ low = not_ltb→le low high done in
            record {
              above = omega arith;
              below = omega arith;
              passes = inl (sym same);
              next_fails = inl (omega arith);
            }
      ]

module _ (policy : ExecutionPolicy) (schedule : FeeSchedule) (cash : Decimal) (maximum : ℕ)
    (instrument : Instrument) (bar : DailyBar) (day : Day) where
  abbrev affordable : ℕ → Result Bool
  affordable = affords policy schedule cash instrument bar day

  abbrev slots : ℕ
  slots = 1 + (maximum - bar.buy_lot) / bar.quantity_step

  abbrev in_slot : ℕ → ℕ
  in_slot = slot_quantity bar.buy_lot bar.quantity_step

  -- The quantity of a slot up to the last is at most the maximum.
  slot-le : (r : ℕ) → bar.buy_lot ≤ maximum → r ≤ slots → in_slot r ≤ maximum
  slot-le r enough bound =
      let steps : r - 1 ≤ (maximum - bar.buy_lot) / bar.quantity_step = omega arith in
      omega (
        arith,
        mul-le-mul_right bar.quantity_step steps,
        div-mul-le_self (maximum - bar.buy_lot) bar.quantity_step,
      )

  next_slot : (k : ℕ) → in_slot (suc k + 1) ≡ in_slot (suc k) + bar.quantity_step
  next_slot k =
      let up : suc k + 1 - 1 ≡ k + 1 = omega arith in
      let here : suc k - 1 ≡ k = omega arith in rw (up, here) (omega arith)

  first_slot : in_slot 1 ≡ bar.buy_lot
  first_slot = omega arith

  last_slot : 0 < bar.quantity_step → maximum < in_slot slots + bar.quantity_step
  last_slot step =
      let count = (maximum - bar.buy_lot) / bar.quantity_step in
      let last : 1 + count - 1 ≡ count = omega arith in
      rw last (omega (arith, lt-div-mul-add {a = maximum - bar.buy_lot} step))

  -- The answer of the search, as a quantity.
  pub record Affordable (q : ℕ) : Type 0 where
    pub normal : (q ≡ 0) ⊎ IsNormal q bar.buy_lot bar.quantity_step
    pub paid : (q ≡ 0) ⊎ (affordable q ≡ ok true)
    pub within : q ≤ maximum
    pub maximal :
        (q ≡ 0)
        ⊎ ((maximum < q + bar.quantity_step) ⊎ (affordable (q + bar.quantity_step) ≡ ok false))
    pub none_paid : (0 < q) ⊎ ((maximum < bar.buy_lot) ⊎ (affordable bar.buy_lot ≡ ok false))

  nothing-Affordable : maximum < bar.buy_lot → Affordable 0
  nothing-Affordable short = record {
    normal = inl refl;
    paid = inl refl;
    within = omega arith;
    maximal = inl refl;
    none_paid = inr (inl short);
  }

  module _ (enough : bar.buy_lot ≤ maximum) (lot : 0 < bar.buy_lot)
      (step : 0 < bar.quantity_step) where
    zero_slot : Found (λ slot. affordable (in_slot slot)) 0 slots 0 → Affordable 0
    zero_slot f = record {
      normal = inl refl;
      paid = inl refl;
      within = omega arith;
      maximal = inl refl;
      none_paid = inr (
          inr (elim f.next_fails [
            | inl all ↦ absurd (omega arith)
            | inr failed ↦ rw first_slot at failed
          ]));
    }

    later_slot :
        (k : ℕ)
        → Found (λ slot. affordable (in_slot slot)) 0 slots (suc k)
        → Affordable (in_slot (suc k))
    later_slot k f = record {
      normal = inr (suc k - 1, refl);
      paid = inr (elim f.passes [ inl none_yet ↦ absurd (omega arith) | inr passed ↦ passed ]);
      within = slot-le (suc k) enough f.below;
      maximal = inr (elim f.next_fails [
        | inl all ↦ inl (omega (arith, last_slot step, ap in_slot all))
        | inr failed ↦ inr (rw (next_slot k) at failed)
      ]);
      none_paid = inl (omega arith);
    }

    slot-Affordable :
        (r : ℕ)
        → Found (λ slot. affordable (in_slot slot)) 0 slots r
        → Affordable (if r == 0 then 0 else in_slot r)
    slot-Affordable zero f = zero_slot f
    slot-Affordable (suc k) f =
        let some_slot : (suc k == 0) ≡ false = ground arith in rw some_slot (later_slot k f)

  -- The quantity returned is 0 or a normal quantity within the maximum that the cash pays for; one
  -- step more, or the minimum if it is 0, is refused by the cash or by the maximum.
  pub affordable_buy_quantity-Affordable :
      (q : ℕ)
      → 0 < bar.buy_lot
      → affordable_buy_quantity policy schedule cash maximum instrument bar day ≡ ok q
      → Affordable q
  unfolding affordable_buy_quantity
  affordable_buy_quantity-Affordable q lot h = elim (Bool-cases (ltb maximum bar.buy_lot)) [
    | inl short ↦
        rw (← ok-injective (rw short at h)) (nothing-Affordable (ltb→lt maximum bar.buy_lot short))
    | inr enough ↦
        let h' = rw enough at h in
        elim (Bool-cases (bar.quantity_step == 0)) [
          | inl broken ↦ absurd (cc (rw broken at h'))
          | inr step ↦
              let (r, searched, same) = >>=-eq-ok (search_slot slots _ 0 slots) _ (rw step at h') in
              rw (← ok-injective same) (
                slot-Affordable (not_ltb→le maximum bar.buy_lot enough) lot (ground arith) r
                  (search_slot-Found _ slots 0 slots (omega arith) (omega arith) searched))
        ]
  ]

  -- The quantity is within the maximum, whatever the minimum declaration.
  pub affordable_buy_quantity-le :
      (q : ℕ)
      → affordable_buy_quantity policy schedule cash maximum instrument bar day ≡ ok q
      → q ≤ maximum
  unfolding affordable_buy_quantity
  affordable_buy_quantity-le q h = elim (Bool-cases (ltb maximum bar.buy_lot)) [
    | inl short ↦ rw (← ok-injective (rw short at h)) (omega arith)
    | inr enough ↦
        let h' = rw enough at h in
        elim (Bool-cases (bar.quantity_step == 0)) [
          | inl broken ↦ absurd (cc (rw broken at h'))
          | inr step ↦
              let (r, searched, same) = >>=-eq-ok (search_slot slots _ 0 slots) _ (rw step at h') in
              let found = search_slot-Found _ slots 0 slots (omega arith) (omega arith) searched in
              let bound = slot-le r (not_ltb→le maximum bar.buy_lot enough) found.below in
              rw (← ok-injective same) (either (r == 0) (in_slot r) bound)
        ]
  ]
    where
      either : (b : Bool) (n : ℕ) → n ≤ maximum → (if b then 0 else n) ≤ maximum
      either true n h = omega arith
      either false n h = h
