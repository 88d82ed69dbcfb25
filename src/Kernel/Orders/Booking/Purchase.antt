-- ===== src/Kernel/Orders/Booking/Purchase.antt =====
-- What `_apply_buy` does to the portfolio.
use mini_qmt.Common.{ℕ, ◌≤◌, ◌≡◌, List, [], ◌∷◌, ◌++◌, arith, ok, >>=-eq-ok, raise_if-eq-ok}
use mini_qmt.Common.Int.{ℤ, pos, ◌+ℤ◌, ◌-ℤ◌, ◌≤ℤ◌}
use mini_qmt.Decimal
use mini_qmt.Decimal.{Decimal}
use mini_qmt.Decimal.Exact.{of_cents}
use mini_qmt.Market.{Day}
use mini_qmt.Trading.Fees.{FeeBreakdown, money, total}
use mini_qmt.Trading.Fees.Exact.{money-add, money-sub, money-add_exact}
use mini_qmt.Trading.State.{PortfolioState, Order, PositionLot, check_state, check_lot}
use mini_qmt.Kernel.Setup.{DigestBody, lot_body, prefixed, advance_session}
use mini_qmt.Kernel.Orders.Booking.{apply_buy}

-- What a purchase changes: `lot` is the new position, `fee_total` the sum of the fees.
pub record Purchased (s s' : PortfolioState) (o : Order) (quantity : ℕ) (amount : ℤ) (fee_total : ℤ)
    (lot : PositionLot) : Type 0 where
  pub cash : s'.cash ≡ s.cash -ℤ (amount +ℤ fee_total)
  pub solvent : pos 0 ≤ℤ s'.cash
  pub fees_paid : s'.fees_paid ≡ s.fees_paid +ℤ fee_total
  pub lots : s'.lots ≡ s.lots ++ lot ∷ []
  pub instrument : lot.instrument_id ≡ o.instrument_id
  pub bought : lot.quantity ≡ quantity
  pub acquired : lot.acquired_on ≡ o.execution_date
  pub settles : lot.acquired_on ≤ lot.sellable_on
  pub cost : lot.cost_amount ≡ amount +ℤ fee_total
  pub realized : s'.realized_pnl ≡ s.realized_pnl

-- The lot of a purchase.
abbrev bought_lot : (DigestBody → ℕ) → Order → ℕ → Decimal → Day → ℤ → PositionLot
bought_lot digest o quantity price sellable_on cost = record {
  lot_id = prefixed (digest (lot_body o.order_id o.execution_date quantity price));
  instrument_id = o.instrument_id;
  quantity = quantity;
  acquired_on = o.execution_date;
  sellable_on = sellable_on;
  cost_amount = cost;
}

module _ (digest : DigestBody → ℕ) (s s' : PortfolioState) (o : Order) (quantity : ℕ)
    (price : Decimal) (amount : ℤ) where
  -- The steps of a purchase, with the values that they gave.
  purchase_steps :
      (fee_total cost cash fees_paid : ℤ) (sellable_on : Day) (lot : PositionLot)
      → money (Decimal.add (of_cents amount) (of_cents fee_total)) ≡ ok cost
      → check_lot (bought_lot digest o quantity price sellable_on cost) ≡ ok lot
      → money (Decimal.sub (of_cents s.cash) (Decimal.add (of_cents amount) (of_cents fee_total)))
        ≡ ok cash
      → money (Decimal.add (of_cents s.fees_paid) (of_cents fee_total)) ≡ ok fees_paid
      → check_state (record s { cash = cash; lots = s.lots ++ lot ∷ []; fees_paid = fees_paid })
        ≡ ok s'
      → Purchased s s' o quantity amount fee_total lot
  unfolding check_lot check_state
  purchase_steps fee_total cost cash fees_paid sellable_on lot c l m f st =
      let m' : money (Decimal.sub (of_cents s.cash) (of_cents (amount +ℤ fee_total))) ≡ ok cash =
        rw (money-add_exact amount fee_total c) at m in
      let cash_is : cash ≡ s.cash -ℤ (amount +ℤ fee_total) =
        money-sub s.cash (amount +ℤ fee_total) m' in
      let cost_is : cost ≡ amount +ℤ fee_total = money-add amount fee_total c in
      let paid_is : fees_paid ≡ s.fees_paid +ℤ fee_total = money-add s.fees_paid fee_total f in
      record {
        cash = ground arith;
        solvent = ground arith;
        fees_paid = ground arith;
        lots = ground arith;
        instrument = ground arith;
        bought = ground arith;
        acquired = ground arith;
        settles = ground arith;
        cost = ground arith;
        realized = ground arith;
      }

  -- A purchase that succeeds pays the amount and the fees from the cash, adds one lot that carries
  -- them as its cost, and leaves the cash at zero or more.
  pub apply_buy-Purchased :
      (sessions : List Day) (fees : FeeBreakdown) (delay : ℕ)
      → apply_buy digest sessions s o quantity price amount fees delay ≡ ok s'
      → (fee_total : ℤ) × (lot : PositionLot) × (total fees ≡ ok fee_total)
        × Purchased s s' o quantity amount fee_total lot
  unfolding apply_buy
  apply_buy-Purchased sessions fees delay bought =
      let (fee_total, fees_known, afford) = >>=-eq-ok (total fees) _ bought in
      let (_, paid) = raise_if-eq-ok _ _ _ afford in
      let (sellable_on, _, settled) =
        >>=-eq-ok (advance_session sessions o.execution_date delay) _ paid in
      let (cost, c, costed) = >>=-eq-ok (money _) _ settled in
      let (lot, l, booked) = >>=-eq-ok (check_lot _) _ costed in
      let (cash, m, left) = >>=-eq-ok (money _) _ booked in
      let (fees_paid, f, checked) = >>=-eq-ok (money _) _ left in
      (
        fee_total,
        lot,
        fees_known,
        purchase_steps fee_total cost cash fees_paid sellable_on lot c l m f checked,
      )
