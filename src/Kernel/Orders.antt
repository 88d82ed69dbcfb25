-- ===== src/Kernel/Orders.antt =====
-- trading/kernel.py: the execution of one order.
pub mod Sizing
pub mod Booking
pub mod Executed
use Sizing.{affordable_buy_quantity, approve}
use Booking.{apply_buy, apply_sell}
use mini_qmt.Common.{
  ℕ, zero, suc, ◌+◌, ◌-◌, Bool, true, false, ◌||◌, ◌&&◌, Option, none, some, List, [], ◌∷◌, ◌++◌,
  ltb, ◌==◌, if◌then◌else◌, Result, ok, err, ◌>>=◌, ◌>>◌, or_raise, raise_if, value_error,
  key_error, assertion_error, not,
}
use mini_qmt.Common.Int.{ℤ, pos}
use mini_qmt.Common.Dict.{get}
use mini_qmt.Common.Sorting.{sorted_set}
use mini_qmt.Decimal
use mini_qmt.Decimal.{Decimal}
use mini_qmt.Decimal.Exact.{of_cents}
use mini_qmt.Market.{Name, Day, Instrument, DailyBar, asset_value}
use mini_qmt.Trading.Fees.{Side, buy, sell, is_sell, FeeBreakdown, money, total, calculate}
use mini_qmt.Trading.Quantity.{is_normal_quantity}
use mini_qmt.Trading.Pricing.{blocked_reason, fill_price}
use mini_qmt.Trading.State.{
  PortfolioState, check_state, quantity, sellable_quantity, LedgerEvent, Order, Fill, RejectReason,
  ExecutionStatus, rejection, expiry, day_order_unfilled, day_order_partial_remainder,
  order_rejected, order_expired, fill_created, invalid_order_quantity, zero_liquidity,
  insufficient_cash, cash_capacity, reason_text_before, OrderDetail,
}
use mini_qmt.Kernel.Setup.{TradingKernel, DigestBody, fill_body, prefixed, order_event}

-- What `_execute_order` returns.
pub record Execution : Type 0 where
  pub state : PortfolioState
  pub fill : Option Fill
  pub events : List LedgerEvent

-- The order is rejected and expires; the state is left alone.
unfoldable pub reject : PortfolioState → Order → RejectReason → ℕ → Result Execution
unfolding order_event
reject state o reason remaining = do
  rejected ← order_event o.execution_date order_rejected o (rejection reason remaining)
  expired ← order_event o.execution_date order_expired o (expiry remaining day_order_unfilled)
  ok (record { state = state; fill = none; events = rejected ∷ expired ∷ [] })

-- A sale of everything that is held, where that is settled and may be an odd lot.
unfoldable pub is_full_residual : PortfolioState → Order → DailyBar → Bool
is_full_residual state o bar =
    is_sell o.side
    && bar.odd_lot_sell_all
    && o.remaining_quantity == quantity state o.instrument_id
    && o.remaining_quantity == sellable_quantity state o.instrument_id o.execution_date

abbrev last_reason : List RejectReason → RejectReason
last_reason [] = zero_liquidity
last_reason (r ∷ []) = r
last_reason (r ∷ r' ∷ rs) = last_reason (r' ∷ rs)

-- The event for the part of a day order that is left unfilled, if any.
abbrev pub remainder_event : Order → ℕ → Result (List LedgerEvent)
remainder_event o remaining = if remaining == 0 then ok [] else do
  expired ←
      order_event o.execution_date order_expired o (expiry remaining day_order_partial_remainder)
  ok (expired ∷ [])

-- The proceeds of a sale less its fees and the cost of the shares, added to the realised total.
abbrev pub realize : PortfolioState → ℤ → ℤ → ℤ → Result (PortfolioState × ℤ)
realize state amount fee_total cost = do
  realized ←
      money (Decimal.sub (Decimal.sub (of_cents amount) (of_cents fee_total)) (of_cents cost))
  realized_pnl ← money (Decimal.add (of_cents state.realized_pnl) (of_cents realized))
  current ← check_state (record state { realized_pnl = realized_pnl })
  ok (current, realized)

module _ (digest : DigestBody → ℕ) (kernel : TradingKernel) where
  -- The accounting of a fill, and the realised profit of a sale.
  unfoldable pub book_fill :
      PortfolioState
      → Order
      → ℕ
      → Decimal
      → ℤ
      → FeeBreakdown
      → ℕ
      → Side
      → Result (PortfolioState × ℤ)
  book_fill state o approved price amount fees delay buy = do
    current ← apply_buy digest kernel.sessions state o approved price amount fees delay
    ok (current, pos 0)
  book_fill state o approved price amount fees delay sell = do
    (current, cost) ← apply_sell state o approved amount fees
    fee_total ← total fees
    realize current amount fee_total cost

  -- The fill of `approved` shares at the price that `_fill_price` gives.
  unfoldable pub fill_order :
      PortfolioState
      → Order
      → Instrument
      → DailyBar
      → Decimal
      → ℕ
      → List RejectReason
      → Result Execution
  unfolding book_fill
  fill_order state o instrument bar opening approved reasons = do
    let day = o.execution_date
    let requested = o.remaining_quantity
    price ← fill_price kernel.execution_policy o.side approved bar
    amount ← money (Decimal.mul price (Decimal.of_ℕ approved))
    fees ←
        calculate kernel.fee_schedule day (asset_value instrument.asset_type) instrument.exchange
          o.side (of_cents amount)
    (current, realized) ←
        book_fill state o approved price amount fees bar.sell_delay_sessions o.side
    slippage ←
        money (Decimal.mul (Decimal.absolute (Decimal.sub price opening)) (Decimal.of_ℕ approved))
    let fill : Fill = record {
      fill_id = prefixed (digest (fill_body o.order_id day approved price));
      order_id = o.order_id;
      instrument_id = o.instrument_id;
      side = o.side;
      session_date = day;
      quantity = approved;
      reference_price = opening;
      price = price;
      amount = amount;
      slippage_amount = slippage;
      fees = fees;
      realized_pnl = realized;
    }
    let remaining = requested - approved
    let status : ExecutionStatus =
        if remaining == 0 then ExecutionStatus.filled else ExecutionStatus.partial
    created ←
        order_event day fill_created o
          (OrderDetail.fill fill status (sorted_set reason_text_before reasons))
    expired ← remainder_event o remaining
    ok (record { state = current; fill = some fill; events = created ∷ expired })

  -- What the cash pays for, of a quantity that the market gives.
  unfoldable pub limit_by_cash :
      PortfolioState
      → Order
      → Instrument
      → DailyBar
      → ℕ
      → List RejectReason
      → Side
      → Result (ℕ × List RejectReason)
  limit_by_cash state o instrument bar approved reasons sell = ok (approved, reasons)
  limit_by_cash state o instrument bar approved reasons buy = do
    affordable ←
        affordable_buy_quantity kernel.execution_policy kernel.fee_schedule (of_cents state.cash)
          approved instrument bar o.execution_date
    ok (
      affordable,
      if ltb affordable o.remaining_quantity then reasons ++ cash_capacity ∷ [] else reasons,
    )

  -- The order of an unblocked instrument, by the bar and its opening price.
  unfoldable pub execute_open :
      PortfolioState → Order → Instrument → DailyBar → Decimal → Result Execution
  unfolding reject is_full_residual limit_by_cash fill_order
  execute_open state o instrument bar opening = do
    let requested = o.remaining_quantity
    let full = is_full_residual state o bar
    normal ← is_normal_quantity requested bar.buy_lot bar.quantity_step
    if not normal && not full then reject state o invalid_order_quantity requested else do
      (offered, reasons) ← approve kernel.execution_policy state o bar full
      if offered == 0 then reject state o (last_reason reasons) requested else do
        (approved, reasons') ← limit_by_cash state o instrument bar offered reasons o.side
        if approved == 0
            then reject state o insufficient_cash requested
            else fill_order state o instrument bar opening approved reasons'

  abbrev pub execute_unblocked :
      PortfolioState → Order → Instrument → Option DailyBar → Result Execution
  execute_unblocked state o instrument none = err assertion_error
  execute_unblocked state o instrument (some bar) = do
    opening ← or_raise bar.opening assertion_error
    execute_open state o instrument bar opening

  abbrev pub execute_by :
      PortfolioState → Order → Instrument → Option DailyBar → Option RejectReason → Result Execution
  execute_by state o instrument bar (some reason) = reject state o reason o.remaining_quantity
  execute_by state o instrument bar none = execute_unblocked state o instrument bar

  -- `_execute_order`
  unfoldable pub execute_order : PortfolioState → Order → Option DailyBar → Result Execution
  unfolding execute_open
  execute_order state o bar = do
    instrument ← or_raise (get kernel.instruments o.instrument_id) key_error
    blocked ← blocked_reason kernel.execution_policy o bar
    execute_by state o instrument bar blocked
