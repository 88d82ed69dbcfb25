-- ===== src/Kernel/Orders/Booking.antt =====
-- trading/kernel.py: the accounting of a purchase and of a sale.
pub mod Purchase
pub mod Lots
pub mod Sale
use mini_qmt.Common.{
  ℕ, zero, suc, ◌+◌, ◌-◌, min, Bool, true, false, ◌&&◌, ◌||◌, not, List, [], ◌∷◌, ◌++◌, ltb, ◌==◌,
  if◌then◌else◌, Result, ok, err, ◌>>=◌, ◌>>◌, raise_if, value_error,
}
use mini_qmt.Common.Int.{ℤ, pos}
use mini_qmt.Common.Sorting.{sort}
use mini_qmt.Decimal
use mini_qmt.Decimal.{Decimal}
use mini_qmt.Decimal.Exact.{of_cents}
use mini_qmt.Market.{Name, Day}
use mini_qmt.Trading.Fees.{FeeBreakdown, money, total}
use mini_qmt.Trading.State.{PortfolioState, check_state, PositionLot, check_lot, Order, is_of}
use mini_qmt.Kernel.Setup.{DigestBody, lot_body, prefixed, advance_session}

-- `_apply_buy`
unfoldable pub apply_buy :
    (DigestBody → ℕ)
    → List Day
    → PortfolioState
    → Order
    → ℕ
    → Decimal
    → ℤ
    → FeeBreakdown
    → ℕ
    → Result PortfolioState
apply_buy digest sessions state o quantity price amount fees sell_delay_sessions = do
  fee_total ← total fees
  let cost = Decimal.add (of_cents amount) (of_cents fee_total)
  raise_if (Decimal.lt (of_cents state.cash) cost) value_error
  sellable_on ← advance_session sessions o.execution_date sell_delay_sessions
  cost_amount ← money cost
  lot ← check_lot (record {
    lot_id = prefixed (digest (lot_body o.order_id o.execution_date quantity price));
    instrument_id = o.instrument_id;
    quantity = quantity;
    acquired_on = o.execution_date;
    sellable_on = sellable_on;
    cost_amount = cost_amount;
  })
  cash ← money (Decimal.sub (of_cents state.cash) cost)
  fees_paid ← money (Decimal.add (of_cents state.fees_paid) (of_cents fee_total))
  check_state (record state { cash = cash; lots = state.lots ++ lot ∷ []; fees_paid = fees_paid })

-- Python's order of tuples, on three keys.
abbrev lex : Bool → Bool → Bool → Bool
lex before same rest = before || same && rest

-- The lots of the instrument first, then by settlement, acquisition and identifier.
abbrev pub settles_before : Name → PositionLot → PositionLot → Bool
settles_before instrument_id a b =
    let other_a = not (is_of instrument_id a) in
    let other_b = not (is_of instrument_id b) in
    lex (not other_a && other_b) (not (other_a && not other_b || not other_a && other_b)) (
      lex (ltb a.sellable_on b.sellable_on) (a.sellable_on == b.sellable_on) (
        lex (ltb a.acquired_on b.acquired_on) (a.acquired_on == b.acquired_on)
          (ltb a.lot_id b.lot_id)))

-- The order in which lots are stored after a sale.
abbrev pub stored_before : PositionLot → PositionLot → Bool
stored_before a b =
    lex (ltb a.instrument_id b.instrument_id) (a.instrument_id == b.instrument_id) (
      lex (ltb a.acquired_on b.acquired_on) (a.acquired_on == b.acquired_on)
        (ltb a.lot_id b.lot_id))

-- What is left of the lots, the shares still to be sold, and the cost of those sold.
pub record Consumption : Type 0 where
  pub lots : List PositionLot
  pub remaining : ℕ
  pub cost : Decimal

-- The cost of the shares taken from a lot: all of it, or the share by quantity.
unfoldable pub consumed_cost : PositionLot → ℕ → Result ℤ
consumed_cost lot consumed =
    if consumed == lot.quantity
    then ok lot.cost_amount
    else (Decimal.div (Decimal.mul (of_cents lot.cost_amount) (Decimal.of_ℕ consumed))
          (Decimal.of_ℕ lot.quantity)
        >>= money)

-- The lot without the shares taken, if any are left.
unfoldable pub leftover : PositionLot → ℕ → ℤ → Result (List PositionLot)
leftover lot consumed cost = if not (ltb consumed lot.quantity) then ok [] else do
  cost_amount ← money (Decimal.sub (of_cents lot.cost_amount) (of_cents cost))
  rest ← check_lot (record lot { quantity = lot.quantity - consumed; cost_amount = cost_amount })
  ok (rest ∷ [])

abbrev pub is_skipped : Name → Day → ℕ → PositionLot → Bool
is_skipped instrument_id day remaining lot =
    not (is_of instrument_id lot) || ltb day lot.sellable_on || remaining == 0

-- One round of the loop over the ordered lots.
unfoldable pub consume_lot : Name → Day → PositionLot → ℕ → Decimal → Result Consumption
unfolding consumed_cost leftover
consume_lot instrument_id day lot remaining cost =
    if is_skipped instrument_id day remaining lot
    then ok (record { lots = lot ∷ []; remaining = remaining; cost = cost })
    else do
      let consumed = min lot.quantity remaining
      taken ← consumed_cost lot consumed
      kept ← leftover lot consumed taken
      ok (record {
        lots = kept;
        remaining = remaining - consumed;
        cost = Decimal.add cost (of_cents taken);
      })

unfoldable pub consume_lots : Name → Day → List PositionLot → ℕ → Decimal → Result Consumption
unfolding consume_lot
consume_lots instrument_id day [] remaining cost =
    ok (record { lots = []; remaining = remaining; cost = cost })
consume_lots instrument_id day (lot ∷ lots) remaining cost = do
  step ← consume_lot instrument_id day lot remaining cost
  rest ← consume_lots instrument_id day lots step.remaining step.cost
  ok (record rest { lots = step.lots ++ rest.lots })

-- The sale of the lots that the loop consumed: cash, fees and the lots in their stored order.
unfoldable pub settle_sale :
    PortfolioState → ℤ → FeeBreakdown → Consumption → Result (PortfolioState × ℤ)
settle_sale state amount fees sold = do
  raise_if (not (sold.remaining == 0)) value_error
  fee_total ← total fees
  cash ←
      money (Decimal.sub (Decimal.add (of_cents state.cash) (of_cents amount)) (of_cents fee_total))
  fees_paid ← money (Decimal.add (of_cents state.fees_paid) (of_cents fee_total))
  current ←
      check_state
        (record state { cash = cash; lots = sort stored_before sold.lots; fees_paid = fees_paid })
  cost ← money sold.cost
  ok (current, cost)

-- `_apply_sell`: the state, and the cost of the shares sold.
unfoldable pub apply_sell :
    PortfolioState → Order → ℕ → ℤ → FeeBreakdown → Result (PortfolioState × ℤ)
apply_sell state o quantity amount fees = do
  sold ←
      consume_lots o.instrument_id o.execution_date
        (sort (settles_before o.instrument_id) state.lots) quantity (of_cents (pos 0))
  settle_sale state amount fees sold
