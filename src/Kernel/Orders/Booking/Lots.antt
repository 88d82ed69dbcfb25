-- ===== src/Kernel/Orders/Booking/Lots.antt =====
-- What the loop of `_apply_sell` takes from the lots.
use mini_qmt.Common.{
  ℕ, ◌+◌, ◌-◌, ◌≤◌, ◌<◌, ◌≡◌, ◌≢◌, refl, false, inl, inr, List, [], ◌∷◌, ◌++◌, arith, ok, ltb, ◌&&◌,
  if◌then◌else◌, ◌==◌, Bool-cases, ltb→lt, not_ltb→le, sym, ok-injective, >>=-eq-ok, sum_by,
  total_by, sum_by-append, total_by-append, All, All-append, min, ◌>>=◌,
}
use mini_qmt.Common.Int.{ℤ, pos, ◌+ℤ◌, ◌-ℤ◌, ◌≤ℤ◌, int_laws}
use mini_qmt.Decimal
use mini_qmt.Decimal.{Decimal, quantize}
use mini_qmt.Decimal.Exact.{of_cents}
use mini_qmt.Decimal.Sums.{
  Tracks, Tracks-add, IsNonneg, mul-IsNonneg, div-IsNonneg, quantize_nonneg,
}
use mini_qmt.Market.{Name, Day}
use mini_qmt.Trading.Fees.{money}
use mini_qmt.Trading.Fees.Exact.{money-sub}
use mini_qmt.Trading.State.{PositionLot, check_lot, held, is_of}
use mini_qmt.Kernel.Orders.Booking.{
  Consumption, consumed_cost, leftover, consume_lot, consume_lots, is_skipped,
}

abbrev pub lot_cost : PositionLot → ℤ
lot_cost l = l.cost_amount

-- The shares of a lot of the instrument that do not settle by the day.
abbrev pub held_unsettled : Name → Day → PositionLot → ℕ
held_unsettled instrument_id day l =
    if is_of instrument_id l && ltb day l.sellable_on then l.quantity else 0

-- A lot as its constructor admits it.
pub record IsLot (l : PositionLot) : Type 0 where
  pub identified : 0 < l.lot_id
  pub named : 0 < l.instrument_id
  pub positive : 0 < l.quantity
  pub settles : l.acquired_on ≤ l.sellable_on
  pub costs : pos 0 ≤ℤ l.cost_amount

pub check_lot-IsLot : (l : PositionLot) {r : PositionLot} → check_lot l ≡ ok r → IsLot l × (r ≡ l)
unfolding check_lot
check_lot-IsLot l {r} h = ground arith

consumed_cost_nonneg :
    (l : PositionLot) (n : ℕ) {c : ℤ} → IsLot l → consumed_cost l n ≡ ok c → pos 0 ≤ℤ c
unfolding consumed_cost money
consumed_cost_nonneg l n {c} v h = elim (Bool-cases (n == l.quantity)) [
  | inl whole ↦ ground arith
  | inr part ↦
      let h' : (Decimal.div product (Decimal.of_ℕ l.quantity) >>= λ d. quantize 2 d) ≡ ok c =
        rw part at h in
      let (share, divided, rounded) =
        >>=-eq-ok (Decimal.div product (Decimal.of_ℕ l.quantity)) _ h' in
      quantize_nonneg 2 share
        (div-IsNonneg product (Decimal.of_ℕ l.quantity) product_nonneg (omega arith) divided)
        rounded
]
  where
    product : Decimal
    product = Decimal.mul (of_cents l.cost_amount) (Decimal.of_ℕ n)

    product_nonneg : IsNonneg product
    product_nonneg = mul-IsNonneg (of_cents l.cost_amount) (Decimal.of_ℕ n) v.costs (omega arith)

whole_cost : (l : PositionLot) {c : ℤ} → consumed_cost l l.quantity ≡ ok c → ok l.cost_amount ≡ ok c
unfolding consumed_cost
whole_cost l {c} h = ground arith

nothing_left :
    (l : PositionLot) (taken : ℤ) {kept : List PositionLot}
    → leftover l l.quantity taken ≡ ok kept
    → ok [] ≡ ok kept
unfolding leftover
nothing_left l taken {kept} h = ground arith

module _ (id : Name) (day : Day) where
  -- What was taken from `before` when `after` is left: `taken` is its cost.
  pub record Consumed (before after : List PositionLot) (wanted left : ℕ) (taken : ℤ) : Type 0 where
    pub bounded : left ≤ wanted
    pub shares : sum_by (held id) after + wanted ≡ sum_by (held id) before + left
    pub unsettled : sum_by (held_unsettled id day) after ≡ sum_by (held_unsettled id day) before
    pub others : (j : Name) → j ≢ id → sum_by (held j) after ≡ sum_by (held j) before
    pub costs : total_by lot_cost after +ℤ taken ≡ total_by lot_cost before
    pub nonneg : pos 0 ≤ℤ taken
    pub valid : All IsLot after

  skipped_lot :
      (l : PositionLot) (wanted : ℕ) → IsLot l → Consumed (l ∷ []) (l ∷ []) wanted wanted (pos 0)
  skipped_lot l wanted v = record {
    bounded = omega arith;
    shares = omega arith;
    unsettled = omega arith;
    others = λ j ne. refl;
    costs = omega int_laws;
    nonneg = omega arith;
    valid = (v, tt);
  }

  -- A lot that is used up.
  whole_lot :
      (l : PositionLot) (wanted : ℕ)
      → IsLot l
      → is_skipped id day wanted l ≡ false
      → l.quantity ≤ wanted
      → Consumed (l ∷ []) [] wanted (wanted - l.quantity) l.cost_amount
  whole_lot l wanted v take fits = record {
    bounded = omega arith;
    shares = ground arith;
    unsettled = ground arith;
    others = λ j ne. ground arith;
    costs = omega int_laws;
    nonneg = v.costs;
    valid = tt;
  }

  -- A lot of which shares are left.
  part_lot :
      (l rest : PositionLot) (wanted : ℕ) (taken cost : ℤ)
      → IsLot l
      → is_skipped id day wanted l ≡ false
      → wanted < l.quantity
      → pos 0 ≤ℤ taken
      → money (Decimal.sub (of_cents l.cost_amount) (of_cents taken)) ≡ ok cost
      → check_lot (record l { quantity = l.quantity - wanted; cost_amount = cost }) ≡ ok rest
      → Consumed (l ∷ []) (rest ∷ []) wanted 0 taken
  part_lot l rest wanted taken cost v take short nonneg m c =
      let (valid, same) = check_lot-IsLot _ c in
      let left : cost ≡ l.cost_amount -ℤ taken = money-sub l.cost_amount taken m in
      record {
        bounded = omega arith;
        shares = rw same (ground arith);
        unsettled = rw same (ground arith);
        others = λ j ne. rw same (ground arith);
        costs = rw (same, left) (omega int_laws);
        nonneg = nonneg;
        valid = (rw same valid, tt);
      }

  taken_lot :
      (l : PositionLot) (wanted : ℕ) (taken : ℤ) (kept : List PositionLot)
      → IsLot l
      → is_skipped id day wanted l ≡ false
      → consumed_cost l (min l.quantity wanted) ≡ ok taken
      → leftover l (min l.quantity wanted) taken ≡ ok kept
      → Consumed (l ∷ []) kept wanted (wanted - min l.quantity wanted) taken
  unfolding leftover
  taken_lot l wanted taken kept v take c rest = elim (Bool-cases (ltb wanted l.quantity)) [
    | inl short ↦
        let m : min l.quantity wanted ≡ wanted = omega (arith, ltb→lt wanted l.quantity short) in
        let (cost, known, r1) = >>=-eq-ok (money _) _ (rw (m, short) at rest) in
        let (lot, checked, r2) = >>=-eq-ok (check_lot _) _ r1 in
        let none_left : wanted - wanted ≡ 0 = omega arith in
        let nonneg : pos 0 ≤ℤ taken = consumed_cost_nonneg l (min l.quantity wanted) v c in
        rw (m, none_left, ← ok-injective r2)
          (part_lot l lot wanted taken cost v take (ltb→lt wanted l.quantity short) nonneg known
            checked)
    | inr fits ↦
        let m : min l.quantity wanted ≡ l.quantity =
          omega (arith, not_ltb→le wanted l.quantity fits) in
        let all : taken ≡ l.cost_amount = ok-injective (sym (whole_cost l (rw m at c))) in
        let gone : [] ≡ kept = ok-injective (nothing_left l taken (rw m at rest)) in
        rw (m, all, ← gone) (whole_lot l wanted v take (not_ltb→le wanted l.quantity fits))
  ]

  consume_lot-Consumed :
      (l : PositionLot) (wanted : ℕ) (cost : Decimal) (z : ℤ) {r : Consumption}
      → IsLot l
      → Tracks cost z
      → consume_lot id day l wanted cost ≡ ok r
      → (taken : ℤ) × Consumed (l ∷ []) r.lots wanted r.remaining taken × Tracks r.cost (z +ℤ taken)
  unfolding consume_lot
  consume_lot-Consumed l wanted cost z {r} v t h = elim (Bool-cases (is_skipped id day wanted l)) [
    | inl skip ↦
        let same : r ≡ record { lots = l ∷ []; remaining = wanted; cost = cost } = ground arith in
        let zero_more : z +ℤ pos 0 ≡ z = omega int_laws in
        (pos 0, rw same (skipped_lot l wanted v), rw (same, zero_more) t)
    | inr take ↦
        let (taken, c, h1) = >>=-eq-ok (consumed_cost l (min l.quantity wanted)) _ (rw take at h) in
        let (kept, k, h2) = >>=-eq-ok (leftover l (min l.quantity wanted) taken) _ h1 in
        let same : r ≡ _ = sym (ok-injective h2) in
        (
          taken,
          rw same (taken_lot l wanted taken kept v take c k),
          rw same (Tracks-add cost z taken (consumed_cost_nonneg l (min l.quantity wanted) v c) t),
        )
  ]

  Consumed-append :
      (before before' after after' : List PositionLot) (wanted left left' : ℕ) (t t' : ℤ)
      → Consumed before after wanted left t
      → Consumed before' after' left left' t'
      → Consumed (before ++ before') (after ++ after') wanted left' (t +ℤ t')
  Consumed-append before before' after after' wanted left left' t t' c c' = record {
    bounded = omega (arith, c.bounded, c'.bounded);
    shares =
        rw (sum_by-append (held id) after after', sum_by-append (held id) before before')
          (omega (arith, c.shares, c'.shares));
    unsettled =
        rw
          (
            sum_by-append (held_unsettled id day) after after',
            sum_by-append (held_unsettled id day) before before',
          )
          (omega (arith, c.unsettled, c'.unsettled));
    others = λ j ne.
        rw (sum_by-append (held j) after after', sum_by-append (held j) before before')
          (omega (arith, c.others j ne, c'.others j ne));
    costs =
        rw (total_by-append lot_cost after after', total_by-append lot_cost before before')
          (rw (← c.costs, ← c'.costs) (omega int_laws));
    nonneg = omega (int_laws, c.nonneg, c'.nonneg);
    valid = All-append IsLot after after' c.valid c'.valid;
  }

  -- The loop takes shares of the instrument that have settled, and nothing else; the cost that it
  -- adds up is the cost that the lots lose.
  pub consume_lots-Consumed :
      (lots : List PositionLot) (wanted : ℕ) (cost : Decimal) (z : ℤ) {r : Consumption}
      → All IsLot lots
      → Tracks cost z
      → consume_lots id day lots wanted cost ≡ ok r
      → (taken : ℤ) × Consumed lots r.lots wanted r.remaining taken × Tracks r.cost (z +ℤ taken)
  unfolding consume_lots
  consume_lots-Consumed [] wanted cost z {r} v t h =
      let same : r ≡ record { lots = []; remaining = wanted; cost = cost } = sym (ok-injective h) in
      let zero_more : z +ℤ pos 0 ≡ z = omega int_laws in
      (pos 0, rw same (nothing_consumed wanted), rw (same, zero_more) t)
    where
      nothing_consumed : (n : ℕ) → Consumed [] [] n n (pos 0)
      nothing_consumed n = record {
        bounded = omega arith;
        shares = omega arith;
        unsettled = refl;
        others = λ j ne. refl;
        costs = omega int_laws;
        nonneg = omega arith;
        valid = tt;
      }
  consume_lots-Consumed (l ∷ lots) wanted cost z {r} v t h =
      let (step, h1, k1) = >>=-eq-ok (consume_lot id day l wanted cost) _ h in
      let (rest, h2, k2) = >>=-eq-ok (consume_lots id day lots step.remaining step.cost) _ k1 in
      let (t1, c1, tr1) = consume_lot-Consumed l wanted cost z v.0 t h1 in
      let (t2, c2, tr2) =
        consume_lots-Consumed lots step.remaining step.cost (z +ℤ t1) v.1 tr1 h2 in
      let same : r ≡ record rest { lots = step.lots ++ rest.lots } = sym (ok-injective k2) in
      let regroup : z +ℤ t1 +ℤ t2 ≡ z +ℤ (t1 +ℤ t2) = omega int_laws in
      (
        t1 +ℤ t2,
        rw same (
            Consumed-append (l ∷ []) lots step.lots rest.lots wanted step.remaining rest.remaining
              t1 t2 c1 c2),
        rw (same, ← regroup) tr2,
      )
