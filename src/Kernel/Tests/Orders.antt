-- ===== src/Kernel/Tests/Orders.antt =====
-- Examples of the theorems on orders: sizing, purchases, sales and their execution.
use mini_qmt.Common.{◌≡◌, ◌≤◌, arith, false, some, ok, Result}
use mini_qmt.Common.Int.{ℤ, pos, ◌+ℤ◌, ◌-ℤ◌, ◌≤ℤ◌}
use mini_qmt.Decimal.Exact.{of_cents}
use mini_qmt.Trading.Fees.{total}
use mini_qmt.Trading.State.{PortfolioState, PositionLot, sellable_quantity}
use mini_qmt.Kernel.Orders.{execute_order}
use mini_qmt.Kernel.Orders.Executed.{Executed, execute_order-Executed}
use mini_qmt.Kernel.Orders.Sizing.{approve}
use mini_qmt.Kernel.Orders.Sizing.Affordable.{Affordable, affordable_buy_quantity-Affordable}
use mini_qmt.Kernel.Orders.Sizing.Capacity.{approve-Settled}
use mini_qmt.Kernel.Orders.Booking.{apply_buy, apply_sell}
use mini_qmt.Kernel.Orders.Booking.Purchase.{Purchased, apply_buy-Purchased}
use mini_qmt.Kernel.Orders.Booking.Sale.{Sold, apply_sell-Sold, apply_sell_cash}
use mini_qmt.Kernel.Tests.{
  value_of, returns, digest, cents, kernel, portfolio, buy_order, sell_order, bar, share_stock,
  fees, execution_policy, fee_schedule, lots-IsLot,
}
use mini_qmt.Kernel.Tests.Runs.{
  execute_sell-returns, apply_buy-returns, apply_sell-returns, affordable-returns, approve-returns,
  total-returns,
}

execute_order-Executed_example :
    Executed portfolio sell_order
      (value_of (execute_order digest kernel portfolio sell_order (some bar)) execute_sell-returns)
execute_order-Executed_example =
    execute_order-Executed digest kernel portfolio sell_order lots-IsLot (some bar)
      (returns (execute_order digest kernel portfolio sell_order (some bar)) execute_sell-returns)

abbrev bought : PortfolioState
bought =
    value_of
      (apply_buy digest kernel.sessions portfolio buy_order 500 (cents 1001) (pos 500500) fees 1)
      apply_buy-returns

apply_buy-Purchased_example :
    (fee_total : ℤ) × (lot : PositionLot) × (total fees ≡ ok fee_total)
    × Purchased portfolio bought buy_order 500 (pos 500500) fee_total lot
apply_buy-Purchased_example =
    apply_buy-Purchased digest portfolio bought buy_order 500 (cents 1001) (pos 500500)
      kernel.sessions fees 1
      (returns
        (apply_buy digest kernel.sessions portfolio buy_order 500 (cents 1001) (pos 500500) fees 1)
        apply_buy-returns)

abbrev sale : Result (PortfolioState × ℤ)
sale = apply_sell portfolio sell_order 200 (pos 199800) fees

abbrev sold : PortfolioState
sold = (value_of sale apply_sell-returns).0

apply_sell-Sold_example : Sold portfolio sold sell_order 200 (value_of sale apply_sell-returns).1
apply_sell-Sold_example =
    apply_sell-Sold portfolio sold sell_order 200 (pos 199800) fees
      (value_of sale apply_sell-returns).1 lots-IsLot (returns sale apply_sell-returns)

apply_sell_cash_example :
    (sold.cash ≡ pos 600000 +ℤ pos 199800 -ℤ value_of (total fees) total-returns)
    × (pos 0 ≤ℤ sold.cash)
    × (sold.fees_paid ≡ pos 0 +ℤ value_of (total fees) total-returns)
    × (sold.realized_pnl ≡ pos 0)
apply_sell_cash_example =
    apply_sell_cash portfolio sold sell_order 200 (pos 199800) fees
      (value_of sale apply_sell-returns).1 (value_of (total fees) total-returns)
      (unfold ◌+ℤ◌ in omega arith) (returns (total fees) total-returns)
      (returns sale apply_sell-returns)

affordable_buy_quantity-Affordable_example :
    Affordable execution_policy fee_schedule (of_cents (pos 600000)) 1000 share_stock bar 11 500
affordable_buy_quantity-Affordable_example =
    affordable_buy_quantity-Affordable execution_policy fee_schedule (of_cents (pos 600000)) 1000
      share_stock bar 11 500 (omega arith) affordable-returns

approve-Settled_example :
    let r = value_of (approve execution_policy portfolio sell_order bar false) approve-returns in
    (r.0 ≤ 200) × (r.0 ≤ sellable_quantity portfolio 7 11)
approve-Settled_example =
    approve-Settled execution_policy portfolio sell_order bar false
      (returns (approve execution_policy portfolio sell_order bar false) approve-returns)
